-- ===== src/Common/Kind.antt =====
-- `EventKind` of scanner-common/src/lib.rs: the tag of an event, and its check on a raw byte.
use execution_aware_scanner.Prelude.{
  ℕ, ◌≤◌, ◌≡◌, refl, ◌↔◌, ◌&&◌, Option, none, some, List, [], ◌∷◌, arith, leb, ◌==◌, if◌then◌else◌,
  Bool-cases, inl, inr, subst,
}

pub data EventKind : Type 0 where
  exec mmap mmap_anon open_ connect bind close tcp_send tcp_recv udp_send udp_recv mprotect
        security_deny security_allow dns_query ssl_write ssl_read function_trace :
      EventKind

-- `kind as u8`, the discriminants that the declaration gives
unfoldable pub discriminant : EventKind → ℕ
discriminant exec = 1
discriminant mmap = 2
discriminant mmap_anon = 3
discriminant open_ = 4
discriminant connect = 5
discriminant bind = 6
discriminant close = 7
discriminant tcp_send = 8
discriminant tcp_recv = 9
discriminant udp_send = 10
discriminant udp_recv = 11
discriminant mprotect = 12
discriminant security_deny = 13
discriminant security_allow = 14
discriminant dns_query = 15
discriminant ssl_write = 16
discriminant ssl_read = 17
discriminant function_trace = 18

abbrev pub all_kinds : List EventKind
all_kinds =
    exec ∷ mmap ∷ mmap_anon ∷ open_ ∷ connect ∷ bind ∷ close ∷ tcp_send ∷ tcp_recv ∷ udp_send
    ∷ udp_recv ∷ mprotect ∷ security_deny ∷ security_allow ∷ dns_query ∷ ssl_write ∷ ssl_read
    ∷ function_trace ∷ []

-- The bits of a byte read as a tag: the variant with that discriminant, if there is one.
transmute : List EventKind → ℕ → Option EventKind
unfolding discriminant
transmute [] val = none
transmute (k ∷ ks) val = if val == discriminant k then some k else transmute ks val

unfoldable pub try_from_u8 : ℕ → Option EventKind
unfolding transmute
try_from_u8 val = if leb 1 val && leb val 18 then transmute all_kinds val else none

transmute_sound :
    (ks : List EventKind) (val : ℕ) (k : EventKind)
    → transmute ks val ≡ some k
    → discriminant k ≡ val
unfolding transmute
transmute_sound [] val k h = cc
transmute_sound (x ∷ ks) val k h = elim (Bool-cases (val == discriminant x)) [
  | inl hit ↦
      let same : x ≡ k = ground arith in subst (λ y. discriminant y ≡ val) same (ground arith)
  | inr miss ↦ transmute_sound ks val k (ground arith)
]

try_from_u8-discriminant : (k : EventKind) → try_from_u8 (discriminant k) ≡ some k
unfolding try_from_u8
try_from_u8-discriminant exec = refl
try_from_u8-discriminant k = refl

-- A byte is accepted exactly if it is the discriminant of a variant, and then as that variant.
pub try_from_u8_iff :
    (val : ℕ) (k : EventKind) → (try_from_u8 val ≡ some k) ↔ (discriminant k ≡ val)
unfolding try_from_u8
try_from_u8_iff val k =
    (from_some, λ e. subst (λ v. try_from_u8 v ≡ some k) e (try_from_u8-discriminant k))
  where
    from_some : try_from_u8 val ≡ some k → discriminant k ≡ val
    from_some h = elim (Bool-cases (leb 1 val && leb val 18)) [
      | inl inside ↦ transmute_sound all_kinds val k (ground arith)
      | inr outside ↦ ground arith
    ]

pub discriminant_range : (k : EventKind) → (1 ≤ discriminant k) × (discriminant k ≤ 18)
unfolding discriminant
discriminant_range exec = omega arith
discriminant_range k = omega arith
