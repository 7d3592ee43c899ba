-- ===== src/Artifact/Open.antt =====
-- An operation of which each entry can be rolled back.
use openvpn_docker.Prelude.{
  ◌≡◌, refl, Bool, true, false, Option, none, some, List, [], ◌∷◌, ℕ, String, str_eq, eq_refl,
  if◌then◌else◌,
}
use openvpn_docker.Actions.Triples.{Ensures, Post}
use openvpn_docker.Artifact.{
  is_committed, Node, Cell, Entry, Progress, World, OperationState, tick, strike, put,
}
use openvpn_docker.Artifact.Safe.{Safe}

unfoldable pub find_entry : String → List Entry → Option Entry
find_entry k [] = none
find_entry k (e ∷ es) = if str_eq e.key k then some e else find_entry k es

abbrev pub IsOpen : OperationState → Type 0
IsOpen OperationState.prepared = Unit
IsOpen OperationState.files_installed = Unit
IsOpen _ = ⊥

pub IsOpen-is_committed : (s : OperationState) → IsOpen s → is_committed s ≡ false
IsOpen-is_committed OperationState.prepared i = refl
IsOpen-is_committed OperationState.files_installed i = refl
IsOpen-is_committed OperationState.committed i = absurd i
IsOpen-is_committed OperationState.rolled_back i = absurd i

pub put_self {ℓ} : {A : Type ℓ} (k : String) (a : A) (f : String → A) → put k a f k ≡ a
put_self k a f = rw (eq_refl k) refl

pub put_other {ℓ} :
    {A : Type ℓ} (k j : String) (a : A) (f : String → A) → str_eq k j ≡ false → put k a f j ≡ f j
put_other k j a f h = rw h refl

-- A predicate that no use of `faults` spoils is kept by a call that may fail.
pub tick-Ensures :
    (P X : World → Type 0)
    → ((w : World) (b : Bool) (fs : List Bool)
        → P w
        → w.faults ≡ b ∷ fs
        → P (record w { faults = fs }))
    → ((w : World) (fs : List Bool) → P w → w.faults ≡ true ∷ fs → X (record w { faults = fs }))
    → Ensures P tick (λ _. P) X
unfolding tick
tick-Ensures P X keep broken = record { at = λ w h. struck w w.faults refl h }
  where
    struck : (w : World) (fs : List Bool) → w.faults ≡ fs → P w → Post (λ _. P) X (strike fs w)
    struck w [] e h = h
    struck w (false ∷ fs) e h = keep w false fs h e
    struck w (true ∷ fs) e h = broken w fs h e

module _ (digest : List ℕ → String) (orig : String → Option Node) where
  -- An entry can be rolled back; a file without an entry is the original.
  unfoldable pub SafeAt : Option Entry → Option Node → Progress → Cell → Type 0
  SafeAt none o p c = c.target ≡ o
  SafeAt (some e) o p c = Safe digest o e p c

  module _ (es : List Entry) (quiet : Type 0) where
    -- Every entry can be rolled back, with the manifest in memory and with the saved one. Under
    -- `quiet` no call fails any more.
    pub record Open (w : World) : Type 0 where
      pub memory_entries : w.memory.entries ≡ es
      pub saved_entries : w.saved.entries ≡ es
      pub memory_open : IsOpen w.memory.state
      pub saved_open : IsOpen w.saved.state
      pub silent : quiet → w.faults ≡ []
      pub memory_safe :
          (j : String) → SafeAt (find_entry j es) (orig j) (w.memory.progress j) (w.cell j)
      pub saved_safe :
          (j : String) → SafeAt (find_entry j es) (orig j) (w.saved.progress j) (w.cell j)

    abbrev pub Failed : World → Type 0
    Failed w = Open w × (quiet → ⊥)

    pub Open-later :
        (w : World) (b : Bool) (fs : List Bool)
        → Open w
        → w.faults ≡ b ∷ fs
        → Open (record w { faults = fs })
    Open-later w b fs h e = record {
      memory_entries = h.memory_entries;
      saved_entries = h.saved_entries;
      memory_open = h.memory_open;
      saved_open = h.saved_open;
      silent = λ q. let none_left = h.silent q in absurd (cc);
      memory_safe = h.memory_safe;
      saved_safe = h.saved_safe;
    }

    -- The same beside a fact that does not read `faults`.
    pub tick-Open :
        (R : World → Type 0)
        → ((w : World) (fs : List Bool) → R w → R (record w { faults = fs }))
        → Ensures (λ w. Open w × R w) tick (λ _ w. Open w × R w) Failed
    tick-Open R keep =
        tick-Ensures (λ w. Open w × R w) Failed
          (λ w b fs (h, r) e. (Open-later w b fs h e, keep w fs r))
          (λ w fs (h, r) e. (Open-later w true fs h e, λ q. let none_left = h.silent q in cc))
