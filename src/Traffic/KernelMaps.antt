-- ===== src/Traffic/KernelMaps.antt =====
-- The maps of a loaded eBPF object, as scanner-agent/src/tc_enforcer.rs uses them through aya. They are
-- a parameter: `M` is what the kernel holds for the object.
use execution_aware_scanner.Prelude.{ℕ, ◌≡◌, Bool, true, false, ◌&&◌, Option, none, ◌==◌}
use execution_aware_scanner.Text.{Text}

-- XDP_BLOCKED_IPS, BLOCKED_IPS and DENYLIST
pub data MapName : Type 0 where
  xdp_map tc_map denylist_map : MapName

abbrev pub same_map : MapName → MapName → Bool
same_map xdp_map xdp_map = true
same_map tc_map tc_map = true
same_map denylist_map denylist_map = true
same_map _ _ = false

-- `map_mut` and `try_into`: whether the object has a map of that name, and of the right type.
pub data Access : Type 0 where
  not_found : Access
  mismatch : Text → Access
  found : Access

-- `insert` and `remove` give the kernel's state after the call, and the error if it fails.
pub record KernelMaps (M : Type 0) : Type 0 where
  pub access : MapName → Access
  pub insert : MapName → ℕ → M → M × Option Text
  pub remove : MapName → ℕ → M → M × Option Text
  pub has : MapName → ℕ → M → Bool

-- What is documented of hash maps: an insertion that succeeds leaves the key there, no insertion takes
-- a key away, and a removal concerns one key of one map.
pub record IsHashMap (M : Type 0) ⦃k : KernelMaps M⦄ : Type 0 where
  pub has-insert :
      (n : MapName) (key : ℕ) (m : M)
      → (k.insert n key m).1 ≡ none
      → k.has n key (k.insert n key m).0 ≡ true
  pub insert_keeps :
      (n : MapName) (key : ℕ) (m : M) (n' : MapName) (key' : ℕ)
      → k.has n' key' m ≡ true
      → k.has n' key' (k.insert n key m).0 ≡ true
  pub remove_keeps :
      (n : MapName) (key : ℕ) (m : M) (n' : MapName) (key' : ℕ)
      → (same_map n' n && key' == key) ≡ false
      → k.has n' key' (k.remove n key m).0 ≡ k.has n' key' m
