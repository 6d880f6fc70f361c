-- ===== src/Services/Assignments/Ledger.antt =====
-- What src/app/services promises of seats, without rows: who may hold a seat, how many seats a licence has,
-- how many of them are in use, and who holds one.
use saas_agent_lab.Common.{
  ℕ, suc, ◌<◌, ◌-◌, ◌≡◌, Bool, true, false, ◌&&◌, ◌==◌, Option, none, some, if◌then◌else◌,
}
use saas_agent_lab.Models.Enums.{UserStatus}

pub record Ledger : Type 0 where
  pub status : ℕ → Option UserStatus
  pub seats_total : ℕ → Option ℕ
  pub seats_used : ℕ → ℕ
  pub holds : ℕ → ℕ → Bool

abbrev pub set : {A : Type 0} → ℕ → A → (ℕ → A) → ℕ → A
set k a f j = if k == j then a else f j

abbrev pub set_pair : ℕ → ℕ → Bool → (ℕ → ℕ → Bool) → ℕ → ℕ → Bool
set_pair user licence b f i j = if (user == i) && (licence == j) then b else f i j

-- The promise: a seat is granted to a user who is active and does not hold one, if one is free; only a
-- seat that is held is given back; and nothing else changes what is known of a user or of a licence.
pub data Step (s : Ledger) : Ledger → Type 0 where
  joins :
      (user : ℕ) (status : UserStatus)
      → s.status user ≡ none
      → Step s (record s { status = set user (some status) s.status })
  offers :
      (licence n : ℕ)
      → s.seats_total licence ≡ none
      → Step s (record s { seats_total = set licence (some n) s.seats_total })
  grants :
      (user licence n : ℕ)
      → s.status user ≡ some UserStatus.active
      → s.seats_total licence ≡ some n
      → s.seats_used licence < n
      → s.holds user licence ≡ false
      → Step s (record s {
        seats_used = set licence (suc (s.seats_used licence)) s.seats_used;
        holds = set_pair user licence true s.holds;
      })
  gives_back :
      (user licence : ℕ)
      → s.holds user licence ≡ true
      → Step s (record s {
        seats_used = set licence (s.seats_used licence - 1) s.seats_used;
        holds = set_pair user licence false s.holds;
      })

pub data Reaches (s : Ledger) : Ledger → Type 0 where
  here : Reaches s s
  next : {t r : Ledger} → Reaches s t → Step t r → Reaches s r

pub Reaches-trans : {s t r : Ledger} → Reaches s t → Reaches t r → Reaches s r
Reaches-trans h here = h
Reaches-trans h (next k step) = next (Reaches-trans h k) step

pub ledger_ext :
    (s t : Ledger)
    → ((k : ℕ) → s.status k ≡ t.status k)
    → ((k : ℕ) → s.seats_total k ≡ t.seats_total k)
    → ((k : ℕ) → s.seats_used k ≡ t.seats_used k)
    → ((i j : ℕ) → s.holds i j ≡ t.holds i j)
    → s ≡ t
ledger_ext s t a b c d = λ i. record {
  status = λ k. a k i;
  seats_total = λ k. b k i;
  seats_used = λ k. c k i;
  holds = λ j k. d j k i;
}
