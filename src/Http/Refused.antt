-- ===== src/Http/Refused.antt =====
-- services/queue-service/internal/httpapi/handler.go: `handleCounterStatus` and `decodeRequest`.
use qms.Base.{
  String, Bool, true, false, Option, List, [], ◌∷◌, ◌≡◌, refl, ◌≤◌, arith, if◌then◌else◌,
}
use qms.Queue.Tx.{Platform, State}
use qms.Http.Messages.{HttpRequest, Parsers, Response, write_error}
use qms.Http.Web.{Web, reply, pure, respond, ◌>>=◌, stop_if}
use qms.Http.Auth.{AuthInfo}
use qms.Http.Decode.{decode_counter_status}
use qms.Http.Writes.{change_counter_status, counter_status_at, handle_counter_status}

-- The handler writes an error and leaves the database alone.
pub record Refuses {B A : Type 0} (m : Web B A) : Type 0 where
  pub at :
      (s : State B)
      → (r : Response B) × ((m s).0 ≡ reply r) × (400 ≤ r.status) × ((m s).1.db ≡ s.db)

module _ {B A : Type 0} where
  Refuses-respond : (r : Response B) → 400 ≤ r.status → Refuses (respond {B = B} {A = A} r)
  unfolding respond
  Refuses-respond r h = record { at = λ s. (r, refl, h, refl) }

  Refuses-if : (b : Bool) (m n : Web B A) → Refuses m → Refuses n → Refuses (if b then m else n)
  Refuses-if true m n rm rn = rm
  Refuses-if false m n rm rn = rn

module _ {B A C : Type 0} where
  Refuses-bind : (m : Web B A) (f : A → Web B C) → Refuses m → Refuses (m >>= f)
  unfolding ◌>>=◌
  Refuses-bind m f h = record {
    at = λ s.
        let (r, answer, error, same) = h.at s in (r, (rw answer refl), error, (rw answer same));
  }

module _ {B C : Type 0} where
  Refuses-stop :
      (bad : Bool) (r : Response B) (f : Unit {0} → Web B C)
      → 400 ≤ r.status
      → Refuses (f tt)
      → Refuses (stop_if bad r >>= f)
  unfolding ◌>>=◌ pure respond
  Refuses-stop true r f h rf = record { at = λ s. (r, refl, h, refl) }
  Refuses-stop false r f h rf = record { at = λ s. rf.at s }

module _ {B : Type 0} (P : Platform B) (T : Parsers) (r : HttpRequest) where
  Refuses-decode_counter_status : Refuses (decode_counter_status P T r)
  unfolding decode_counter_status write_error
  Refuses-decode_counter_status = Refuses-stop _ _ _ (omega arith) (Refuses-respond _ (omega arith))

  Refuses-change_counter_status :
      (i : Option AuthInfo) (c : String) → Refuses (change_counter_status P T r i c)
  unfolding change_counter_status write_error
  Refuses-change_counter_status i c =
      Refuses-stop _ _ _ (omega arith)
        (Refuses-stop _ _ _ (omega arith) (Refuses-bind _ _ Refuses-decode_counter_status))

  Refuses-counter_status_at :
      (i : Option AuthInfo) (parts : List String) → Refuses (counter_status_at P T r i parts)
  unfolding counter_status_at write_error
  Refuses-counter_status_at i [] = Refuses-respond _ (omega arith)
  Refuses-counter_status_at i (c ∷ []) = Refuses-respond _ (omega arith)
  Refuses-counter_status_at i (c ∷ word ∷ []) =
      Refuses-if _ _ _ (Refuses-change_counter_status i c) (Refuses-respond _ (omega arith))
  Refuses-counter_status_at i (c ∷ word ∷ x ∷ more) = Refuses-respond _ (omega arith)

  -- The handler of a counter's status answers every request, of any body, with an error, and never
  -- changes the database.
  pub handle_counter_status-Refuses :
      (i : Option AuthInfo) → Refuses (handle_counter_status P T r i)
  unfolding handle_counter_status
  handle_counter_status-Refuses i = Refuses-counter_status_at i _
