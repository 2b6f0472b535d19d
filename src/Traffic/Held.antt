-- ===== src/Traffic/Held.antt =====
-- scanner-agent/src/tc_enforcer.rs: what blocking and unblocking do to the maps in the kernel.
use execution_aware_scanner.Prelude.{
  ℕ, ◌≡◌, refl, Bool, true, false, ◌&&◌, Option, none, some, List, [], ◌∷◌, arith,
}
use execution_aware_scanner.Text.{Text}
use execution_aware_scanner.Outcome.{ScannerError}
use execution_aware_scanner.Containers.Order.{nat_ord}
use execution_aware_scanner.Containers.OrdSet.{contains}
use execution_aware_scanner.Traffic.KernelMaps.{
  KernelMaps, IsHashMap, MapName, xdp_map, tc_map, same_map, Access, found,
}
use execution_aware_scanner.Traffic.Rules.{xdp_access, xdp_insert, tc_insert}
use execution_aware_scanner.Traffic.Enforcer.{
  change, block_both, block_xdp, try_remove, try_remove_all, clear_both,
}

abbrev is_found : Access → Bool
is_found found = true
is_found _ = false

module _ {M : Type 0} ⦃k : KernelMaps M⦄ where
  -- Both maps are there, and both hold the address.
  abbrev pub is_held : ℕ → Option M → Bool
  is_held ip none = false
  is_held ip (some m) =
      is_found (k.access xdp_map)
      && is_found (k.access tc_map)
      && k.has xdp_map ip m
      && k.has tc_map ip m

  -- The map of the XDP program holds the address.
  abbrev pub in_xdp : ℕ → Option M → Bool
  in_xdp ip none = false
  in_xdp ip (some m) = k.has xdp_map ip m

  module _ (laws : IsHashMap M) where
    pub change_insert_keeps :
        (n : MapName) (a b : Text) (key : ℕ) (m : M) (n' : MapName) (key' : ℕ)
        → k.has n' key' m ≡ true
        → k.has n' key' (change n a b (k.insert n key) m).0 ≡ true
    unfolding change
    change_insert_keeps n a b key m n' key' h = ground (arith, laws.insert_keeps n key m n' key')

    pub change_inserted :
        (n : MapName) (a b : Text) (key : ℕ) (m : M)
        → (change n a b (k.insert n key) m).1 ≡ none
        → (k.access n ≡ found) × (k.has n key (change n a b (k.insert n key) m).0 ≡ true)
    unfolding change
    change_inserted n a b key m h = ground (arith, laws.has-insert n key m)

    pub change_remove_keeps :
        (n : MapName) (a b : Text) (key : ℕ) (m : M) (n' : MapName) (key' : ℕ)
        → same_map n' n ≡ false
        → k.has n' key' m ≡ true
        → k.has n' key' (change n a b (k.remove n key) m).0 ≡ true
    unfolding change
    change_remove_keeps n a b key m n' key' d h = ground (arith, laws.remove_keeps n key m n' key')

    pub try_remove_all_keeps :
        (n : MapName) (ips : List ℕ) (m : M) (n' : MapName) (key' : ℕ)
        → (same_map n' n && contains key' ips) ≡ false
        → k.has n' key' (try_remove_all n ips m) ≡ k.has n' key' m
    unfolding try_remove_all try_remove contains
    try_remove_all_keeps n [] m n' key' h = refl
    try_remove_all_keeps n (ip ∷ ips) m n' key' h =
        let rest = try_remove_all_keeps n ips (try_remove n ip m) n' key' (ground arith) in
        ground (arith, rest, laws.remove_keeps n ip m n' key')

    pub block_both_keeps :
        (ip : ℕ) (m : M) (n : MapName) (key : ℕ)
        → k.has n key m ≡ true
        → k.has n key (block_both ip m).0 ≡ true
    unfolding block_both
    block_both_keeps ip m n key h =
        let first = change_insert_keeps xdp_map xdp_access xdp_insert ip m n key h in
        let second =
          change_insert_keeps tc_map tc_insert tc_insert ip (block_xdp ip m).0 n key first in
        ground (arith, first, second)

    pub block_both_holds :
        (ip : ℕ) (m : M) → (block_both ip m).1 ≡ none → is_held ip (some (block_both ip m).0) ≡ true
    unfolding block_both
    block_both_holds ip m h =
        let first = change_inserted xdp_map xdp_access xdp_insert ip m in
        let second = change_inserted tc_map tc_insert tc_insert ip (block_xdp ip m).0 in
        let kept =
          change_insert_keeps tc_map tc_insert tc_insert ip (block_xdp ip m).0 xdp_map ip in
        ground (arith, first, second, kept)

    pub clear_both_keeps :
        (ips : List ℕ) (m : M) (j : ℕ)
        → contains j ips ≡ false
        → is_held j (some m) ≡ true
        → is_held j (some (clear_both ips m).0) ≡ true
    unfolding clear_both
    clear_both_keeps ips m j h r =
        let m' = try_remove_all xdp_map ips m in
        let xdp = try_remove_all_keeps xdp_map ips m xdp_map j in
        let tc = try_remove_all_keeps xdp_map ips m tc_map j in
        let xdp' = try_remove_all_keeps tc_map ips m' xdp_map j in
        let tc' = try_remove_all_keeps tc_map ips m' tc_map j in ground (arith, xdp, tc, xdp', tc')

    pub clear_both_fails :
        (ips : List ℕ) (m : M) (e : ScannerError) (j : ℕ)
        → (clear_both ips m).1 ≡ some e
        → is_held j (some m) ≡ false
    unfolding clear_both
    clear_both_fails ips m e j h = ground arith
