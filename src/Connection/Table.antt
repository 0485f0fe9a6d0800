-- ===== src/Connection/Table.antt =====
-- src/connection.rs: the table of streams.
use adaptivemsg_rust.Base.{
  ℕ, zero, suc, ◌≡◌, ◌∙◌, ◌≢◌, ◌⊎◌, inl, inr, refl, List, [], ◌∷◌, ◌++◌, Option, some, none, true,
  false, ◌==◌, ◌||◌, if◌then◌else◌, length, get_elem?, arith, Bool-cases, Option-cases,
}
use adaptivemsg_rust.Connection.{
  Connection, Stream, get, erase, update, is_some, new_stream_inner, make_stream, remove_stream,
  default_stream_id,
}

abbrev pub id_at : List Stream → ℕ → Option ℕ
id_at ss i = elim (get_elem? ss i) [ none ↦ none | some s ↦ some s.id ]

-- Every ID stands once, and its handle is a stream with that ID.
abbrev pub IsTable : List Stream → List (ℕ × ℕ) → Type 0
IsTable ss [] = Unit {0}
IsTable ss ((k, v) ∷ t) = (id_at ss v ≡ some k) × (get t k ≡ none) × IsTable ss t

-- The default stream is the stream with ID 0, and a closed connection has no stream registered.
pub record IsValid (c : Connection) : Type 0 where
  pub table : IsTable c.streams c.stream_contexts
  pub default_id : (h : ℕ) → c.default_stream ≡ some h → id_at c.streams h ≡ some default_stream_id
  pub emptied : c.is_closed ≡ true → (c.stream_contexts ≡ []) × (c.default_stream ≡ none)

pub get-erase : (t : List (ℕ × ℕ)) (id : ℕ) → get (erase t id) id ≡ none
get-erase [] id = refl
get-erase ((k, v) ∷ t) id = ground (arith, get-erase t id)

pub get-erase-other : (t : List (ℕ × ℕ)) (id k : ℕ) → k ≢ id → get (erase t id) k ≡ get t k
get-erase-other [] id k d = refl
get-erase-other ((j, v) ∷ t) id k d = ground (arith, get-erase-other t id k d)

-- `ss'` has the streams of `ss`, at the same handles and with the same IDs.
abbrev pub Keeps : List Stream → List Stream → Type 0
Keeps ss ss' = (i k : ℕ) → id_at ss i ≡ some k → id_at ss' i ≡ some k

pub append-Keeps : (ss : List Stream) (s : Stream) → Keeps ss (ss ++ s ∷ [])
append-Keeps [] s i k h = cc
append-Keeps (x ∷ ss) s zero k h = h
append-Keeps (x ∷ ss) s (suc i) k h = append-Keeps ss s i k h

pub update-Keeps :
    (ss : List Stream) (h : ℕ) (f : Stream → Stream)
    → ((s : Stream) → (f s).id ≡ s.id)
    → Keeps ss (update ss h f)
update-Keeps [] h f keep i k e = e
update-Keeps (x ∷ ss) zero f keep zero k e = ground (arith, keep x)
update-Keeps (x ∷ ss) zero f keep (suc i) k e = e
update-Keeps (x ∷ ss) (suc h) f keep zero k e = e
update-Keeps (x ∷ ss) (suc h) f keep (suc i) k e = update-Keeps ss h f keep i k e

pub id_at-last : (ss : List Stream) (s : Stream) → id_at (ss ++ s ∷ []) (length ss) ≡ some s.id
id_at-last [] s = refl
id_at-last (x ∷ ss) s = id_at-last ss s

pub Keeps-IsTable :
    (ss ss' : List Stream) (t : List (ℕ × ℕ)) → Keeps ss ss' → IsTable ss t → IsTable ss' t
Keeps-IsTable ss ss' [] keep v = tt
Keeps-IsTable ss ss' ((k, i) ∷ t) keep v = (keep i k v.0, v.1, Keeps-IsTable ss ss' t keep v.2)

pub erase-IsTable :
    (ss : List Stream) (t : List (ℕ × ℕ)) (id : ℕ) → IsTable ss t → IsTable ss (erase t id)
erase-IsTable ss [] id v = tt
erase-IsTable ss ((k, i) ∷ t) id v = elim (Bool-cases (k == id)) [
  | inl e ↦ rw e (erase-IsTable ss t id v.2)
  | inr e ↦ rw e (v.0, get-erase-other t id k (ground arith) ∙ v.1, erase-IsTable ss t id v.2)
]

-- What only changes the store keeps a valid connection valid.
pub store-IsValid :
    (c : Connection) (ss : List Stream)
    → Keeps c.streams ss
    → IsValid c
    → IsValid (record c { streams = ss })
store-IsValid c ss keep v = record {
  table = Keeps-IsTable c.streams ss c.stream_contexts keep v.table;
  default_id = λ h e. keep h default_stream_id (v.default_id h e);
  emptied = v.emptied;
}

-- The connection with a new stream registered.
abbrev pub registered : Connection → ℕ → Connection
registered c id = record c {
  streams = c.streams ++ new_stream_inner id ∷ [];
  stream_contexts = (id, length c.streams) ∷ c.stream_contexts;
  default_stream = if id == default_stream_id then some (length c.streams) else c.default_stream;
}

pub make_stream-cases :
    (c : Connection) (id : ℕ)
    → ((make_stream c id ≡ (c, none))
        × ((c.is_closed || is_some (get c.stream_contexts id)) ≡ true))
      ⊎ ((make_stream c id ≡ (registered c id, some (length c.streams)))
          × (c.is_closed ≡ false)
          × (get c.stream_contexts id ≡ none))
unfolding make_stream
make_stream-cases c id = ground arith

registered-default :
    (c : Connection) (id h : ℕ)
    → IsValid c
    → (registered c id).default_stream ≡ some h
    → id_at (registered c id).streams h ≡ some default_stream_id
registered-default c id h v e = ground (
  arith,
  id_at-last c.streams (new_stream_inner id),
  append-Keeps c.streams (new_stream_inner id) h default_stream_id,
  v.default_id h,
)

pub make_stream-IsValid : (c : Connection) (id : ℕ) → IsValid c → IsValid (make_stream c id).0
make_stream-IsValid c id v = elim (make_stream-cases c id) [
  | inl e ↦ rw e.0 v
  | inr e ↦ rw e.0 (record {
    table = (
      id_at-last c.streams (new_stream_inner id),
      e.2,
      Keeps-IsTable c.streams (c.streams ++ new_stream_inner id ∷ []) c.stream_contexts
          (append-Keeps c.streams (new_stream_inner id)) v.table,
    );
    default_id = λ h k. registered-default c id h v k;
    emptied = λ k. cc;
  })
]

abbrev pub removed : Connection → ℕ → ℕ → Connection
removed c id h = record c {
  stream_contexts = erase c.stream_contexts id;
  streams = update c.streams h (λ s. record s { is_closed = true });
}

pub remove_stream-cases :
    (c : Connection) (id : ℕ)
    → ((remove_stream c id ≡ (c, false)) × (get c.stream_contexts id ≡ none))
      ⊎ ((h : ℕ) × (remove_stream c id ≡ (removed c id h, true))
          × (get c.stream_contexts id ≡ some h))
unfolding remove_stream
remove_stream-cases c id = elim (Option-cases (get c.stream_contexts id)) [
  | inl e ↦ inl (ground arith, e)
  | inr (h, e) ↦ inr (h, ground arith, e)
]

pub remove_stream-IsValid : (c : Connection) (id : ℕ) → IsValid c → IsValid (remove_stream c id).0
remove_stream-IsValid c id v = elim (remove_stream-cases c id) [
  | inl e ↦ rw e.0 v
  | inr (h, e, k) ↦ rw e (
      store-IsValid (record c { stream_contexts = erase c.stream_contexts id })
        (update c.streams h (λ s. record s { is_closed = true }))
        (update-Keeps c.streams h (λ s. record s { is_closed = true }) (λ s. refl))
        (record {
          table = erase-IsTable c.streams c.stream_contexts id v.table;
          default_id = v.default_id;
          emptied = λ k. (ground (arith, v.emptied), (v.emptied k).1);
        }))
]
