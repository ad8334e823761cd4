-- ===== src/Storage/Audit.antt =====
-- src/storage.rs: the audit log. Its rows are never deleted, so the id that SQLite gives a row is its
-- place, counted from 1.
use mathlib.Core.List.{reverse-append, append_assoc}
use polyglotmesh.Prelude.{
  ℕ, zero, suc, ◌+◌, ◌≤◌, ◌≡◌, refl, ap, ◌∙◌, min, List, [], ◌∷◌, ◌++◌, map, reverse, take_n,
  length, length-append, Text, arith,
}
use polyglotmesh.Storage.{Storage, AuditEvent}

module _ {F : Type 0} where
  -- The row that the log gets next.
  abbrev pub next_row : ℕ → Text → Text → Text → Storage F → AuditEvent
  next_row now action actor detail db = record {
    id = length db.audit_events + 1;
    action = action;
    actor = actor;
    detail = detail;
    at = now;
  }

  -- `append_audit`: the id of the row, and the tables.
  unfoldable pub append_audit : ℕ → Text → Text → Text → Storage F → ℕ × Storage F
  append_audit now action actor detail db = (
    length db.audit_events + 1,
    record db { audit_events = db.audit_events ++ (next_row now action actor detail db ∷ []) },
  )

  -- `recent_audit`
  unfoldable pub recent_audit : ℕ → Storage F → List AuditEvent
  recent_audit limit db = take_n (min limit 1000) (reverse db.audit_events)

-- n, n - 1, .. 1
abbrev pub countdown : ℕ → List ℕ
countdown zero = []
countdown (suc n) = suc n ∷ countdown n

-- What an entry says: its action, its actor, its detail and its time.
abbrev pub said : AuditEvent → Text × Text × Text × ℕ
said e = (e.action, e.actor, e.detail, e.at)

-- The ids count the rows from 1.
abbrev pub IsNumbered : List AuditEvent → Type 0
IsNumbered rows = map (λ (e : AuditEvent). e.id) (reverse rows) ≡ countdown (length rows)

module _ {F : Type 0} where
  -- One `append_audit` after the other.
  unfoldable pub append_all : List (Text × Text × Text × ℕ) → Storage F → Storage F
  unfolding append_audit
  append_all [] db = db
  append_all ((action, actor, detail, now) ∷ es) db =
      append_all es (append_audit now action actor detail db).1

suc-eq : (n : ℕ) → n + 1 ≡ suc n
suc-eq n = omega arith

map-take_n :
    {A B : Type 0} (f : A → B) (n : ℕ) (xs : List A) → map f (take_n n xs) ≡ take_n n (map f xs)
map-take_n f zero xs = refl
map-take_n f (suc n) [] = refl
map-take_n f (suc n) (x ∷ xs) = ap (λ l. f x ∷ l) (map-take_n f n xs)

pub length-take_n-le : {A : Type 0} (n : ℕ) (xs : List A) → length (take_n n xs) ≤ n
length-take_n-le zero xs = omega arith
length-take_n-le (suc n) [] = omega arith
length-take_n-le (suc n) (x ∷ xs) = omega (arith, length-take_n-le n xs)

module _ {F : Type 0} where
  append_audit-rows :
      (now : ℕ) (action actor detail : Text) (db : Storage F)
      → let rows = (append_audit now action actor detail db).1.audit_events in
        (reverse rows ≡ next_row now action actor detail db ∷ reverse db.audit_events)
        × (length rows ≡ suc (length db.audit_events))
  unfolding append_audit
  append_audit-rows now action actor detail db = (
    reverse-append db.audit_events (next_row now action actor detail db ∷ []),
    length-append db.audit_events (next_row now action actor detail db ∷ []) ∙ omega arith,
  )

  append_audit-IsNumbered :
      (now : ℕ) (action actor detail : Text) (db : Storage F)
      → IsNumbered db.audit_events
      → IsNumbered (append_audit now action actor detail db).1.audit_events
  append_audit-IsNumbered now action actor detail db v =
      let (rows, n) = append_audit-rows now action actor detail db in
      rw (rows, n, suc-eq (length db.audit_events))
        (ap (λ (l : List ℕ). suc (length db.audit_events) ∷ l) v)

  append_all-IsNumbered :
      (es : List (Text × Text × Text × ℕ)) (db : Storage F)
      → IsNumbered db.audit_events
      → IsNumbered (append_all es db).audit_events
  unfolding append_all
  append_all-IsNumbered [] db v = v
  append_all-IsNumbered ((action, actor, detail, now) ∷ es) db v =
      append_all-IsNumbered es (append_audit now action actor detail db).1
        (append_audit-IsNumbered now action actor detail db v)

  append_all-entries :
      (es : List (Text × Text × Text × ℕ)) (db : Storage F)
      → map said (reverse (append_all es db).audit_events)
        ≡ reverse es ++ map said (reverse db.audit_events)
  unfolding append_all
  append_all-entries [] db = refl
  append_all-entries ((action, actor, detail, now) ∷ es) db =
      append_all-entries es (append_audit now action actor detail db).1
      ∙ rw
          (
            (append_audit-rows now action actor detail db).0,
            reverse-append ((action, actor, detail, now) ∷ []) es,
            append_assoc (reverse es) ((action, actor, detail, now) ∷ []),
          )
          refl

  -- After any entries are appended to a log whose ids count its rows, `recent_audit` answers with at
  -- most `limit` and at most 1000 rows: the newest, the newest first, each with what was appended and
  -- with the ids counting down from the number of all rows.
  pub recent_audit-append_all :
      (es : List (Text × Text × Text × ℕ)) (limit : ℕ) (db : Storage F)
      → IsNumbered db.audit_events
      → let db' = append_all es db in
        let recent = recent_audit limit db' in
        (length recent ≤ min limit 1000)
        × (map said recent
            ≡ take_n (min limit 1000) (reverse es ++ map said (reverse db.audit_events)))
        × (map (λ (e : AuditEvent). e.id) recent
            ≡ take_n (min limit 1000) (countdown (length db'.audit_events)))
  unfolding recent_audit
  recent_audit-append_all es limit db v = (
    length-take_n-le (min limit 1000) (reverse (append_all es db).audit_events),
    map-take_n said (min limit 1000) (reverse (append_all es db).audit_events)
        ∙ ap (take_n (min limit 1000)) (append_all-entries es db),
    map-take_n (λ (e : AuditEvent). e.id) (min limit 1000) (reverse (append_all es db).audit_events)
        ∙ ap (take_n (min limit 1000)) (append_all-IsNumbered es db v),
  )
