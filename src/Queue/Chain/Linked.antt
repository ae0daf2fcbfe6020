-- ===== src/Queue/Chain/Linked.antt =====
-- The hash chains in the table `ticket_events`, and one more row at the end of one.
use qms.Base.{
  ℕ, ◌+◌, ◌<◌, String, Bool, some, List, [], ◌∷◌, ◌++◌, ◌≡◌, refl, ◌=?◌, ltb, if◌then◌else◌, select,
  best, Bool-cases, inl, inr, eq_iff, eq_refl, arith, subst,
}
use qms.Queue.Db.{EventRow}
use qms.Queue.Tx.{Platform}
use qms.Queue.Events.{compute_ticket_event_hash, last_event, seq_of, hash_of}

module _ {B : Type 0} (P : Platform B) where
  -- The row follows one with the number `n` and the hash `prev`. Its own hash is that of a payload and
  -- a time of which its columns keep the stored forms.
  abbrev pub Follows : String → String → ℕ → EventRow B → Type 0
  Follows id prev n e =
      (e.ticket_seq ≡ n + 1)
      × (e.prev_hash ≡ some prev)
      × ((payload : B) × (time : ℕ) × (e.payload ≡ P.jsonb payload)
          × (e.created_at ≡ P.timestamptz time)
          × (e.hash ≡ some (compute_ticket_event_hash P prev id e.type payload time (n + 1))))

  abbrev pub Linked : String → String → ℕ → List (EventRow B) → Type 0
  Linked id prev n [] = Unit
  Linked id prev n (e ∷ es) = Follows id prev n e × Linked id (hash_of (some e)) e.ticket_seq es

  abbrev pub of_ticket : String → List (EventRow B) → List (EventRow B)
  of_ticket id events = select (λ (e : EventRow B). e.ticket_id =? id) events

  -- The chain of every ticket starts with an empty hash and the number 1.
  abbrev pub IsChained : List (EventRow B) → Type 0
  IsChained events = (id : String) → Linked id "" 0 (of_ticket id events)

  abbrev last_seq : ℕ → List (EventRow B) → ℕ
  last_seq n [] = n
  last_seq n (e ∷ es) = last_seq e.ticket_seq es

  abbrev last_hash : String → List (EventRow B) → String
  last_hash prev [] = prev
  last_hash prev (e ∷ es) = last_hash (hash_of (some e)) es

  Linked-append_one :
      (id prev : String) (n : ℕ) (es : List (EventRow B)) (e : EventRow B)
      → Linked id prev n es
      → Follows id (last_hash prev es) (last_seq n es) e
      → Linked id prev n (es ++ (e ∷ []))
  Linked-append_one id prev n [] e l f = (f, tt)
  Linked-append_one id prev n (x ∷ xs) e l f =
      (l.0, Linked-append_one id (hash_of (some x)) x.ticket_seq xs e l.1 f)

  abbrev later : EventRow B → EventRow B → Bool
  later a b = ltb b.ticket_seq a.ticket_seq

  -- The row with the greatest number is the last one.
  best-Linked :
      (id prev : String) (n : ℕ) (e : EventRow B) (es : List (EventRow B))
      → Linked id prev n (e ∷ es)
      → (y : EventRow B) × (best later (e ∷ es) ≡ some y)
        × (y.ticket_seq ≡ last_seq n (e ∷ es))
        × (hash_of (some y) ≡ last_hash prev (e ∷ es))
        × (n < y.ticket_seq)
  unfolding best
  best-Linked id prev n e [] l = (e, refl, refl, refl, ground (arith, l.0.0))
  best-Linked id prev n e (x ∷ xs) l =
      let (y, found, number, hash, less) =
        best-Linked id (hash_of (some e)) e.ticket_seq x xs l.1 in
      (y, ground (arith, found, less), number, hash, ground (arith, less, l.0.0))

  last-Linked :
      (id : String) (es : List (EventRow B))
      → Linked id "" 0 es
      → (seq_of (best later es) ≡ last_seq 0 es) × (hash_of (best later es) ≡ last_hash "" es)
  unfolding best
  last-Linked id [] l = (refl, refl)
  last-Linked id (e ∷ es) l =
      let (y, found, number, hash, less) = best-Linked id "" 0 e es l in rw (found) (number, hash)

  select-append_one :
      (p : EventRow B → Bool) (es : List (EventRow B)) (e : EventRow B)
      → select p (es ++ (e ∷ [])) ≡ (if p e then select p es ++ (e ∷ []) else select p es)
  unfolding select
  select-append_one p [] e = ground arith
  select-append_one p (x ∷ xs) e =
      let rest = select-append_one p xs e in
      elim (Bool-cases (p x)) [
        | inl t ↦ elim (Bool-cases (p e)) [ inl u ↦ ground arith | inr u ↦ ground arith ]
        | inr t ↦ ground arith
      ]

  -- The row that follows the last of its ticket can be added.
  pub IsChained-append_one :
      (es : List (EventRow B)) (e : EventRow B)
      → IsChained es
      → Follows e.ticket_id
          (hash_of (last_event e.ticket_id es))
          (seq_of (last_event e.ticket_id es))
          e
      → IsChained (es ++ (e ∷ []))
  unfolding last_event
  IsChained-append_one es e c f id = elim (Bool-cases (e.ticket_id =? id)) [
    | inl t ↦
        let same : e.ticket_id ≡ id = (eq_iff e.ticket_id id).0 t in
        let last = last-Linked e.ticket_id (of_ticket e.ticket_id es) (c e.ticket_id) in
        subst (λ (k : String). Linked k "" 0 (of_ticket k (es ++ (e ∷ [])))) same
          (rw (select-append_one (λ (x : EventRow B). x.ticket_id =? e.ticket_id) es e, eq_refl)
            (Linked-append_one e.ticket_id "" 0 (of_ticket e.ticket_id es) e (c e.ticket_id)
              (rw (← last.0, ← last.1) f)))
    | inr t ↦ rw (select-append_one (λ (x : EventRow B). x.ticket_id =? id) es e, t) (c id)
  ]
