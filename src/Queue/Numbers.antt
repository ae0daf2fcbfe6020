-- ===== src/Queue/Numbers.antt =====
-- store/postgres/store.go: the numbers of `nextTicketNumber`, and the texts that `CreateTicket`
-- makes of them.
use Prim.Native.String.{◌++◌ as append}
use qms.Base.{
  ℕ, ◌+◌, String, true, false, none, some, List, [], ◌∷◌, ◌++◌, ◌≡◌, refl, sym, ap, ◌∙◌, ◌=?◌, ◌&&◌,
  if◌then◌else◌, find, update, inl, inr, Bool-cases, Option-cases, maybe, and_true, arith, eq_iff,
  eq_refl, find-append_one,
}
use qms.Queue.Db.{Db, SequenceRow}
use text.Mathlib.TextLemmas.{append_cancel_left}
use qms.Queue.Decimal.{padded}
use qms.Queue.Decimal.Parse.{value_from, value-padded}
use qms.Queue.Create.{take_number, is_sequence, bump_sequence, format_ticket_number}

-- The number that a sequence has given out last; 0 before the first.
unfoldable pub last_number : {B : Type 0} → String → String → Db B → ℕ
last_number b v d =
    maybe (find (is_sequence b v) d.sequences) 0 (λ (r : SequenceRow). r.next_number)

find-bump :
    (b v : String) (xs : List SequenceRow) (r : SequenceRow)
    → find (is_sequence b v) xs ≡ some r
    → find (is_sequence b v) (update (is_sequence b v) bump_sequence xs) ≡ some (bump_sequence r)
unfolding find update
find-bump b v [] r h = absurd (cc)
find-bump b v (x ∷ xs) r h = elim (Bool-cases (is_sequence b v x)) [
  | inl t ↦ ground (arith, h, t)
  | inr t ↦ rw (t, t) (find-bump b v xs r (ground (arith, h, t)))
]

-- The rows of the sequence are those of another one's key only if the keys are the same.
other_sequence :
    (b v b' v' : String) (r : SequenceRow)
    → (b =? b' && v =? v') ≡ false
    → is_sequence b v r ≡ true
    → is_sequence b' v' r ≡ false
other_sequence b v b' v' r h e = ground (
  arith,
  eq_iff b b',
  eq_iff v v',
  eq_iff r.branch_id b,
  eq_iff r.branch_id b',
  eq_iff r.service_id v,
  eq_iff r.service_id v',
)

find-bump_other :
    (b v b' v' : String) (xs : List SequenceRow)
    → (b =? b' && v =? v') ≡ false
    → find (is_sequence b' v') (update (is_sequence b v) bump_sequence xs)
      ≡ find (is_sequence b' v') xs
unfolding find update
find-bump_other b v b' v' [] h = refl
find-bump_other b v b' v' (x ∷ xs) h = elim (Bool-cases (is_sequence b v x)) [
  | inl t ↦ rw (t, other_sequence b v b' v' x h t) (find-bump_other b v b' v' xs h)
  | inr t ↦ rw (t, find-bump_other b v b' v' xs h) refl
]

find-append_other :
    (b v b' v' : String) (xs : List SequenceRow) (x : SequenceRow)
    → (b =? b' && v =? v') ≡ false
    → is_sequence b v x ≡ true
    → find (is_sequence b' v') (xs ++ (x ∷ [])) ≡ find (is_sequence b' v') xs
unfolding find
find-append_other b v b' v' [] x h e = rw (other_sequence b v b' v' x h e) refl
find-append_other b v b' v' (y ∷ ys) x h e = rw (find-append_other b v b' v' ys x h e) refl

last-none :
    {B : Type 0} (b v : String) (d : Db B)
    → find (is_sequence b v) d.sequences ≡ none
    → ((take_number b v d).0 ≡ last_number b v d + 1)
      × (last_number b v (take_number b v d).1 ≡ last_number b v d + 1)
unfolding take_number last_number maybe
last-none b v d e =
    let new : SequenceRow = record { branch_id = b; service_id = v; next_number = 1 } in
    simp (e, find-append_one (is_sequence b v) d.sequences new e (simp eq_refl refl)) (refl, refl)

last-some :
    {B : Type 0} (b v : String) (d : Db B) (r : SequenceRow)
    → find (is_sequence b v) d.sequences ≡ some r
    → ((take_number b v d).0 ≡ last_number b v d + 1)
      × (last_number b v (take_number b v d).1 ≡ last_number b v d + 1)
unfolding take_number last_number maybe
last-some b v d r e = simp (e, find-bump b v d.sequences r e) (refl, refl)

last-other :
    {B : Type 0} (b v b' v' : String) (d : Db B)
    → (b =? b' && v =? v') ≡ false
    → last_number b' v' (take_number b v d).1 ≡ last_number b' v' d
unfolding take_number last_number maybe
last-other b v b' v' d h = elim (Option-cases (find (is_sequence b v) d.sequences)) [
  | inl e ↦
      let new : SequenceRow = record { branch_id = b; service_id = v; next_number = 1 } in
      simp (e, find-append_other b v b' v' d.sequences new h (simp eq_refl refl)) refl
  | inr (r, e) ↦ simp (e, find-bump_other b v b' v' d.sequences h) refl
]

last_number_step :
    {B : Type 0} (b v : String) (d : Db B)
    → ((take_number b v d).0 ≡ last_number b v d + 1)
      × (last_number b v (take_number b v d).1 ≡ last_number b v d + 1)
last_number_step b v d = elim (Option-cases (find (is_sequence b v) d.sequences)) [
  | inl e ↦ last-none b v d e
  | inr (r, e) ↦ last-some b v d r e
]

-- `nextTicketNumber` gives the number after the last one of its sequence, which it becomes, and
-- every other sequence keeps its last number.
pub take_number-last_number :
    {B : Type 0} (b v b' v' : String) (d : Db B)
    → ((take_number b v d).0 ≡ last_number b v d + 1)
      × (last_number b' v' (take_number b v d).1
          ≡ (if b =? b' && v =? v' then last_number b v d + 1 else last_number b' v' d))
take_number-last_number b v b' v' d = elim (Bool-cases (b =? b' && v =? v')) [
  | inl t ↦
      let same_branch : b ≡ b' = (eq_iff b b').0 (and_true _ _ t).0 in
      let same_service : v ≡ v' = (eq_iff v v').0 (and_true (b =? b') _ t).1 in
      rw (t, ← same_branch, ← same_service) (last_number_step b v d)
  | inr t ↦ rw t ((last_number_step b v d).0, last-other b v b' v' d t)
]

-- Of one service, two ticket numbers that read the same come from one number of its sequence.
pub format_ticket_number_injective :
    (code : String) (m n : ℕ) → format_ticket_number code m ≡ format_ticket_number code n → m ≡ n
unfolding format_ticket_number
format_ticket_number_injective code m n h =
    sym (value-padded m)
    ∙ ap (value_from 0) (
        append_cancel_left "-" (padded m) (padded n)
          (append_cancel_left code (append "-" (padded m)) (append "-" (padded n)) h))
    ∙ value-padded n
