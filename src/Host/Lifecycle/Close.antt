-- ===== src/Host/Lifecycle/Close.antt =====
-- `_close_locked` of system/_host.py, and what it closes.
use hostctl.Prelude.{
  ℕ, suc, Bool, true, false, ◌≡◌, refl, sym, ◌∙◌, Option, none, some, List, [], ◌∷◌, ◌++◌, arith,
  ◌&&◌, ◌||◌, ◌==◌, not, if◌then◌else◌, member, member-append, Bool-cases, inl, inr,
}
use hostctl.Provider.Contracts.{Fault}
use hostctl.Host.Lifecycle.{Host, Done, reverse, without, distinct_targets}

-- The transports that `_close_locked` closes, in order, the closed ones afterwards and the first error.
pub record Closing : Type 0 where
  pub closing : List ℕ
  pub closed : List ℕ
  pub error : Option Fault

-- `if first_error is None: first_error = exc`
unfoldable pub first_error : Option Fault → Option Fault → Option Fault
first_error none e = e
first_error (some e) other = some e

module _ (target : ℕ → ℕ) (raises : ℕ → Option Fault) where
  -- `for target in reversed(targets)`; a transport without `close` counts as one whose `close` does
  -- nothing.
  unfoldable pub close_loop : List ℕ → List ℕ → Option Fault → Closing
  unfolding first_error
  close_loop [] closed error = record { closing = []; closed = closed; error = error }
  close_loop (t ∷ ts) closed error =
      let rest = close_loop ts (t ∷ closed) (first_error error (raises t)) in
      let skipped = close_loop ts closed error in
      if member t closed
      then skipped
      else record { closing = t ∷ rest.closing; closed = rest.closed; error = rest.error }

  -- `targets`
  unfoldable pub all_targets : Host → List ℕ
  unfolding distinct_targets
  all_targets h = distinct_targets target (h.connected_providers ++ h.executors ++ h.paths) []

  unfoldable pub close_targets : Host → Closing
  unfolding close_loop all_targets reverse
  close_targets h = close_loop (reverse (all_targets h)) h.closed_targets none

  -- `_close_locked`
  unfoldable pub close : Host → Done
  unfolding close_targets without
  close h =
      let closing = close_targets h in
      record {
        host = record h {
          connected = false;
          connected_providers = [];
          closed_targets = closing.closed;
          initializer_generation = false;
          invalidations = suc h.invalidations;
          live = without closing.closing h.live;
        };
        error = closing.error;
      }

-- What is true of the closing transports: none twice.
unfoldable pub is_distinct : List ℕ → Bool
is_distinct [] = true
is_distinct (x ∷ xs) = not (member x xs) && is_distinct xs

pub member_equal : (x t : ℕ) (xs : List ℕ) → (x == t) ≡ true → member x xs ≡ member t xs
member_equal x t xs h = let same : x ≡ t = ground arith in rw same refl

-- A transport that is closed already makes no difference to which others are.
seen_before :
    (x t : ℕ) (ts closed : List ℕ)
    → member t closed ≡ true
    → ((member x ts && not (member x closed)) ≡ (member x (t ∷ ts) && not (member x closed)))
      × ((member x closed || member x ts) ≡ (member x closed || member x (t ∷ ts)))
seen_before x t ts closed h = elim (Bool-cases (x == t)) [
  | inl e ↦
      let same : member x closed ≡ true = member_equal x t closed e ∙ h in
      (ground arith, ground arith)
  | inr e ↦ (ground arith, ground arith)
]

first_error-none : (e : Option Fault) → first_error e none ≡ e
unfolding first_error
first_error-none none = refl
first_error-none (some e) = refl

added_first :
    (x t : ℕ) (ts closed : List ℕ) (b : Bool)
    → member t closed ≡ false
    → b ≡ (member x ts && not (member x (t ∷ closed)))
    → (x == t || b) ≡ (member x (t ∷ ts) && not (member x closed))
added_first x t ts closed b h e = elim (Bool-cases (x == t)) [
  | inl k ↦ let same : member x closed ≡ false = member_equal x t closed k ∙ h in ground arith
  | inr k ↦ ground arith
]

first_error_assoc :
    (a b c : Option Fault) → first_error (first_error a b) c ≡ first_error a (first_error b c)
unfolding first_error
first_error_assoc none b c = refl
first_error_assoc (some a) b c = refl

pub member-reverse : (x : ℕ) (xs : List ℕ) → member x (reverse xs) ≡ member x xs
unfolding reverse
member-reverse x [] = refl
member-reverse x (y ∷ xs) =
    member-append x (reverse xs) (y ∷ []) ∙ rw (member-reverse x xs) (ground arith)

module _ (target : ℕ → ℕ) (raises : ℕ → Option Fault) where
  -- The first error among the transports that are closed, in this order.
  unfoldable pub first_raised : List ℕ → Option Fault
  unfolding first_error
  first_raised [] = none
  first_raised (t ∷ ts) = first_error (raises t) (first_raised ts)

  pub member-closing :
      (x : ℕ) (ts closed : List ℕ) (e : Option Fault)
      → member x (close_loop target raises ts closed e).closing
        ≡ (member x ts && not (member x closed))
  unfolding close_loop
  member-closing x [] closed e = refl
  member-closing x (t ∷ ts) closed e = elim (Bool-cases (member t closed)) [
    | inl h ↦ rw h (member-closing x ts closed e ∙ (seen_before x t ts closed h).0)
    | inr h ↦
        let rest : member x
              (close_loop target raises ts (t ∷ closed) (first_error e (raises t))).closing
            ≡ (member x ts && not (member x (t ∷ closed))) =
          member-closing x ts (t ∷ closed) (first_error e (raises t)) in
        rw h (added_first x t ts closed _ h rest)
  ]

  pub member-closed :
      (x : ℕ) (ts closed : List ℕ) (e : Option Fault)
      → member x (close_loop target raises ts closed e).closed ≡ (member x closed || member x ts)
  unfolding close_loop
  member-closed x [] closed e = ground arith
  member-closed x (t ∷ ts) closed e = elim (Bool-cases (member t closed)) [
    | inl h ↦ rw h (member-closed x ts closed e ∙ (seen_before x t ts closed h).1)
    | inr h ↦ rw h (member-closed x ts (t ∷ closed) _ ∙ ground arith)
  ]

  pub closing-is_distinct :
      (ts closed : List ℕ) (e : Option Fault)
      → is_distinct (close_loop target raises ts closed e).closing ≡ true
  unfolding close_loop is_distinct
  closing-is_distinct [] closed e = refl
  closing-is_distinct (t ∷ ts) closed e = elim (Bool-cases (member t closed)) [
    | inl h ↦ rw h (closing-is_distinct ts closed e)
    | inr h ↦
        let apart : member t
              (close_loop target raises ts (t ∷ closed) (first_error e (raises t))).closing
            ≡ (member t ts && not (member t (t ∷ closed))) =
          member-closing t ts (t ∷ closed) (first_error e (raises t)) in
        let rest : is_distinct
              (close_loop target raises ts (t ∷ closed) (first_error e (raises t))).closing
            ≡ true =
          closing-is_distinct ts (t ∷ closed) (first_error e (raises t)) in
        rw h (ground arith)
  ]

  pub close_loop-error :
      (ts closed : List ℕ) (e : Option Fault)
      → (close_loop target raises ts closed e).error
        ≡ first_error e (first_raised (close_loop target raises ts closed e).closing)
  unfolding close_loop first_raised
  close_loop-error [] closed e = sym (first_error-none e)
  close_loop-error (t ∷ ts) closed e = elim (Bool-cases (member t closed)) [
    | inl h ↦ rw h (close_loop-error ts closed e)
    | inr h ↦ rw h (
        close_loop-error ts (t ∷ closed) (first_error e (raises t))
        ∙ first_error_assoc e (raises t) _)
  ]
