-- ===== src/Dispatcher/Store.antt =====
-- The process-local store of sessions (namisync/dispatcher/store.py).
use nami_sync.Base.{String, List, [], ◌∷◌, string_eq, if◌then◌else◌, leb}
use nami_sync.Base.Dict.{Dict, put, remove}
use nami_sync.Session.Records.{SessionRecord}

pub record InMemorySessionStore : Type 0 where
  pub records : Dict String SessionRecord

-- The three operations that `SessionStore` names.
unfoldable pub put_session : SessionRecord → InMemorySessionStore → InMemorySessionStore
put_session r store = record { records = put r.session_id r store.records }

abbrev pub load_all : InMemorySessionStore → List SessionRecord
load_all store = []

unfoldable pub drop_session : String → InMemorySessionStore → InMemorySessionStore
drop_session session_id store = record { records = remove session_id store.records }

abbrev pub values : Dict String SessionRecord → List SessionRecord
values [] = []
values ((key, r) ∷ rest) = r ∷ values rest

-- `sorted` by `admission_order`; it is stable.
unfoldable pub insert_by_order : SessionRecord → List SessionRecord → List SessionRecord
insert_by_order r [] = r ∷ []
insert_by_order r (s ∷ sorted) =
    let rest = insert_by_order r sorted in
    if leb r.admission_order s.admission_order then r ∷ s ∷ sorted else s ∷ rest

unfoldable pub sort_by_order : List SessionRecord → List SessionRecord
sort_by_order [] = []
sort_by_order (r ∷ rest) = insert_by_order r (sort_by_order rest)

-- `snapshot`
abbrev pub snapshot : InMemorySessionStore → List SessionRecord
snapshot store = sort_by_order (values store.records)
