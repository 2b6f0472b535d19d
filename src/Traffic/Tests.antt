-- ===== src/Traffic/Tests.antt =====
-- Runs of the traffic enforcer on maps that hold what was put in, up to a number of keys in all.
use execution_aware_scanner.Prelude.{
  ℕ, ◌≡◌, refl, ◌==◌, Bool, true, false, ◌&&◌, ◌||◌, Option, none, some, List, [], ◌∷◌, arith,
  foldl, ltb, length, if◌then◌else◌,
}
use execution_aware_scanner.Text.{Text, codes}
use execution_aware_scanner.Containers.Order.{nat_ord}
use execution_aware_scanner.Containers.OrdSet.{contains, insert}
use execution_aware_scanner.Traffic.KernelMaps.{
  KernelMaps, IsHashMap, MapName, denylist_map, same_map, found,
}
use execution_aware_scanner.Traffic.Rules.{ip_indicator, port_indicator}
use execution_aware_scanner.Traffic.Enforcer.{with_bpf, block_c2_indicators, quarantine_workload}
use execution_aware_scanner.Traffic.Held.{is_held}
use execution_aware_scanner.Traffic.Recorded.{
  Call, block, block_c2, quarantine, step, recorded_is_held,
}

abbrev Keys : Type 0
Keys = List (MapName × ℕ)

abbrev has_key : MapName → ℕ → Keys → Bool
has_key n key [] = false
has_key n key ((n', key') ∷ keys) = same_map n n' && key == key' || has_key n key keys

abbrev drop_key : MapName → ℕ → Keys → Keys
drop_key n key [] = []
drop_key n key ((n', key') ∷ keys) =
    let rest = drop_key n key keys in
    if same_map n n' && key == key' then rest else (n', key') ∷ rest

abbrev add_key : MapName → ℕ → Keys → Keys × Option Text
add_key n key keys =
    if ltb (length keys) 3 then ((n, key) ∷ keys, none) else (keys, some (codes "full"))

instance abbrev keys_maps : KernelMaps Keys
keys_maps = record {
  access = λ n. found;
  insert = add_key;
  remove = λ n key keys. (drop_key n key keys, none);
  has = has_key;
}

same_map_sound : (a b c : MapName) → same_map a b ≡ true → same_map a c ≡ same_map b c
same_map_sound a b c h = ground arith

drop_key_keeps :
    (n : MapName) (key : ℕ) (keys : Keys) (n' : MapName) (key' : ℕ)
    → (same_map n' n && key' == key) ≡ false
    → has_key n' key' (drop_key n key keys) ≡ has_key n' key' keys
drop_key_keeps n key [] n' key' h = refl
drop_key_keeps n key ((m, j) ∷ keys) n' key' h = ground (arith, drop_key_keeps n key keys n' key' h)

same_map_refl : (n : MapName) → same_map n n ≡ true
same_map_refl n = ground arith

keys_maps-IsHashMap : IsHashMap Keys
keys_maps-IsHashMap = record {
  has-insert = λ n key keys h. ground (arith, same_map_refl n);
  insert_keeps = λ n key keys n' key' h. ground arith;
  remove_keeps = drop_key_keeps;
}

abbrev calls : List Call
calls =
    block 7 (codes "scan") 1
    ∷ quarantine 3 60
    ∷ block_c2 ((ip_indicator 8, 2) ∷ (port_indicator 53, 3) ∷ [])
    ∷ []

-- The first address fits, and the second one does not.
calls_record :
    (foldl step (with_bpf {M = Keys} [] (codes "scanner.o") 0) calls).blocked_ips ≡ 7 ∷ []
unfolding step block_c2_indicators quarantine_workload with_bpf insert
calls_record = refl

recorded_is_held_example :
    is_held 7 (foldl step (with_bpf {M = Keys} [] (codes "scanner.o") 0) calls).maps ≡ true
unfolding step contains block_c2_indicators quarantine_workload with_bpf insert
recorded_is_held_example =
    recorded_is_held keys_maps-IsHashMap [] (codes "scanner.o") 0 calls 7 refl

abbrev two_keys : Keys
two_keys = (denylist_map, 1) ∷ (denylist_map, 2) ∷ []
