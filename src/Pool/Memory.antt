-- ===== src/Pool/Memory.antt =====
-- A tier in memory that keeps the promises of `TierBackend`, for the tests of `Pool`.
use mathlib.Core.Logic.{if_pos, if_neg}
use tierbuf.Prelude.{
  ℕ, ◌+◌, ◌<◌, ◌≡◌, ◌≢◌, refl, sym, ap, ◌∙◌, subst, Bool, true, false, Option, none, some,
  Bool-cases, inl, inr, arith, ltb, if◌then◌else◌, update, ℕ_discrete,
}
use tierbuf.Fault.{BufError, pool_exhausted}
use tierbuf.Pool.Backend.{TierBackend, Result, ok, err}
use tierbuf.Pool.Eviction.{Storage}
use tierbuf.Pool.Eviction.Exchange.{IsUnshared}

-- Pages are numbers; locations from `next` on were never used.
pub record Memory : Type 0 where
  pub slot : ℕ → Option ℕ
  pub next : ℕ
  pub room : ℕ

abbrev pub InMemory : Memory → ℕ → ℕ → Type 0
InMemory m l p = (m.slot l ≡ some p) × (l < m.next)

abbrev pub memory_write : ℕ → Memory → Memory × Result ℕ
memory_write page m =
    if ltb m.next m.room
    then (record m { slot = update m.slot m.next (some page); next = m.next + 1 }, ok m.next)
    else (m, err pool_exhausted)

abbrev pub found : Option ℕ → Result ℕ
found none = err pool_exhausted
found (some page) = ok page

abbrev pub memory_free : ℕ → Memory → Memory
memory_free l m = record m { slot = update m.slot l none }

abbrev pub value : Result ℕ → ℕ
value (ok a) = a
value (err _) = 0

abbrev pub is_ok : Result ℕ → Bool
is_ok (ok _) = true
is_ok (err _) = false

pub memory_wrote :
    (page : ℕ) (m m' : Memory) (l : ℕ)
    → memory_write page m ≡ (m', ok l)
    → (m' ≡ record m { slot = update m.slot m.next (some page); next = m.next + 1 }) × (l ≡ m.next)
memory_wrote page m m' l e = elim (Bool-cases (ltb m.next m.room)) [
  | inl y ↦ let e' = rw y at e in (sym (ap (λ r. r.0) e'), sym (ap (λ r. value r.1) e'))
  | inr n ↦ let no_way : false ≡ true = ap (λ r. is_ok r.1) (rw n at e) in cc
]

pub memory_write-ok :
    (page : ℕ) (m m' : Memory) (l : ℕ)
    → memory_write page m ≡ (m', ok l)
    → InMemory m' l page
      × ((p : ℕ) → ¬ InMemory m l p)
      × ((j : ℕ) (p : ℕ) → InMemory m j p → InMemory m' j p)
memory_write-ok page m m' l e =
    let (same, at) = memory_wrote page m m' l e in
    let m'' : Memory = record m { slot = update m.slot m.next (some page); next = m.next + 1 } in
    subst
      (λ (n : Memory).
        InMemory n l page
        × ((p : ℕ) → ¬ InMemory m l p)
        × ((j : ℕ) (p : ℕ) → InMemory m j p → InMemory n j p))
      (sym same)
      (
        (rw (if_pos (ℕ_discrete m.next l) (sym at)) refl, omega arith),
        (λ p h. absurd (omega (arith, h.1))),
        (λ j p h. (
          rw (if_neg (ℕ_discrete m.next j) (λ e. absurd (omega (arith, h.1)))) h.0,
          omega (arith, h.1),
        )),
      )

pub memory_write-err :
    (page : ℕ) (m m' : Memory) (x : BufError)
    → memory_write page m ≡ (m', err x)
    → (j : ℕ) (p : ℕ) → InMemory m j p
    → InMemory m' j p
memory_write-err page m m' x e j p h = elim (Bool-cases (ltb m.next m.room)) [
  | inl y ↦ let no_way : true ≡ false = ap (λ r. is_ok r.1) (rw y at e) in cc
  | inr n ↦ subst (λ k. InMemory k j p) (ap (λ r. r.0) (rw n at e)) h
]

pub memory_free-keeps :
    (l j : ℕ) (m : Memory) (p : ℕ) → j ≢ l → InMemory m j p → InMemory (memory_free l m) j p
memory_free-keeps l j m p d h = (rw (if_neg (ℕ_discrete l j) (λ e. d (sym e))) h.0, h.1)

pub memory_read-ok :
    (l : ℕ) (m m' : Memory) (page p : ℕ)
    → ◌≡◌ {A = Memory × Result ℕ} (m, found (m.slot l)) (m', ok page)
    → InMemory m l p
    → page ≡ p
memory_read-ok l m m' page p e h = sym (ap (λ r. value r.1) e) ∙ ap (λ o. value (found o)) h.0

abbrev pub memory_tier : TierBackend
memory_tier = record {
  Page = ℕ;
  State = Memory;
  read = λ l m. (m, found (m.slot l));
  write = memory_write;
  free = memory_free;
  Holds = InMemory;
  write-ok = memory_write-ok;
  write-err = memory_write-err;
  read-ok = memory_read-ok;
  read-keeps = λ l j m p h. h;
  free-keeps = memory_free-keeps;
}

-- A page that tier 0 backs at location 0, dirty in its frame, and a second tier.
abbrev pub storage : Storage memory_tier
storage = record {
  tiers = λ i. record { slot = λ l. some 7; next = 1; room = i + 1 };
  budgets = λ i. none;
  directory = λ pid. if ltb pid 1 then some (record { tier_index = 0; offset = 0 }) else none;
}

pub storage-IsUnshared : IsUnshared memory_tier 0 storage
storage-IsUnshared other l m d e e' =
    let off : ltb other 1 ≡ false = ground arith in
    let none_there : none ≡ some m = rw off at e' in cc
