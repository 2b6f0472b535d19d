-- ===== src/Enforcement/Seccomp.antt =====
-- The profiles of allowed system calls that scanner-agent/src/enforcement.rs and
-- scanner-agent/src/risk_engine.rs build from the calls that a workload was seen to make.
pub mod Allowed
use execution_aware_scanner.Prelude.{ℕ, ◌||◌, Bool, List, [], ◌∷◌, ◌++◌, if◌then◌else◌, length, any}
use execution_aware_scanner.Common.Finding.{SeccompProfile, SeccompRule}
use execution_aware_scanner.Text.{Text, codes}
use execution_aware_scanner.Containers.Order.{text_ord, ◌=?◌}
use execution_aware_scanner.Containers.OrdSet.{
  OrdSet, insert_all, insert as insert_name, contains as contains_name,
}
use execution_aware_scanner.Containers.OrdMap.{OrdMap, update}

abbrev pub is_one_of : List Text → Text → Bool
is_one_of names s = any (λ (t : Text). s =? t) names

unfoldable pub categorize_syscall : Text → Text
categorize_syscall syscall =
    if is_one_of
      (codes "mmap" ∷ codes "munmap" ∷ codes "mprotect" ∷ codes "brk" ∷ codes "sbrk" ∷ []) syscall
    then codes "memory"
    else if is_one_of
        (codes "openat"
          ∷ codes "openat2"
          ∷ codes "read"
          ∷ codes "write"
          ∷ codes "close"
          ∷ codes "fstat"
          ∷ codes "lseek"
          ∷ codes "access"
          ∷ [])
        syscall
    then codes "file"
    else if is_one_of
        (codes "execve"
          ∷ codes "execveat"
          ∷ codes "clone"
          ∷ codes "fork"
          ∷ codes "vfork"
          ∷ codes "exit"
          ∷ codes "wait4"
          ∷ codes "getpid"
          ∷ [])
        syscall
    then codes "process"
    else if is_one_of
        (codes "socket"
          ∷ codes "connect"
          ∷ codes "bind"
          ∷ codes "listen"
          ∷ codes "accept"
          ∷ codes "sendto"
          ∷ codes "recvfrom"
          ∷ codes "setsockopt"
          ∷ [])
        syscall
    then codes "network"
    else if is_one_of
        (codes "rt_sigaction"
          ∷ codes "rt_sigprocmask"
          ∷ codes "rt_sigreturn"
          ∷ codes "kill"
          ∷ codes "tkill"
          ∷ codes "tgkill"
          ∷ [])
        syscall
    then codes "signal"
    else if is_one_of
        (codes "clock_gettime"
          ∷ codes "gettimeofday"
          ∷ codes "nanosleep"
          ∷ codes "alarm"
          ∷ codes "timer_create"
          ∷ [])
        syscall
    then codes "time"
    else codes "other"

-- The calls that a profile of the controller allows in any case.
abbrev pub essential_syscalls : List Text
essential_syscalls =
    codes "exit"
    ∷ codes "exit_group"
    ∷ codes "rt_sigreturn"
    ∷ codes "sigreturn"
    ∷ codes "brk"
    ∷ codes "mmap"
    ∷ codes "munmap"
    ∷ codes "arch_prctl"
    ∷ codes "set_tid_address"
    ∷ []

unfoldable pub allowed_syscalls : OrdSet Text → OrdSet Text
allowed_syscalls observed = insert_all observed (insert_all essential_syscalls [])

-- The loop that sorts the calls by category.
unfoldable pub categories_of : OrdMap Text (List Text) → List Text → OrdMap Text (List Text)
unfolding categorize_syscall
categories_of categories [] = categories
categories_of categories (s ∷ ss) =
    categories_of (update (categorize_syscall s) [] (λ names. names ++ s ∷ []) categories) ss

-- The profile's JSON object: the fixed members are its first two and the rule's action.
pub record GeneratedProfile : Type 0 where
  pub default_action : Text
  pub architectures : List Text
  pub names : List Text
  pub action : Text
  pub categories : OrdMap Text (List Text)
  pub generated_by : Text
  pub generated_at : Text
  pub workload_id : Text
  pub syscall_count : ℕ

unfoldable pub profile_of : OrdSet Text → Text → Text → GeneratedProfile
unfolding allowed_syscalls categories_of
profile_of observed workload_id generated_at =
    let allowed = allowed_syscalls observed in
    record {
      default_action = codes "SCMP_ACT_ERRNO";
      architectures =
          codes "SCMP_ARCH_X86_64" ∷ codes "SCMP_ARCH_X86" ∷ codes "SCMP_ARCH_AARCH64" ∷ [];
      names = allowed;
      action = codes "SCMP_ACT_ALLOW";
      categories = categories_of [] allowed;
      generated_by = codes "execution-aware-scanner";
      generated_at = generated_at;
      workload_id = workload_id;
      syscall_count = length allowed;
    }

-- The calls that a profile of the risk engine allows in any case.
abbrev pub engine_syscalls : List Text
engine_syscalls =
    codes "exit"
    ∷ codes "exit_group"
    ∷ codes "rt_sigreturn"
    ∷ codes "sigreturn"
    ∷ codes "brk"
    ∷ codes "mmap"
    ∷ codes "munmap"
    ∷ codes "mprotect"
    ∷ []

abbrev pub with_openat2 : OrdSet Text → OrdSet Text
with_openat2 allowlist =
    if contains_name (codes "openat") allowlist
    then insert_name (codes "openat2") allowlist
    else allowlist

-- `ExfRiskEngine::build_seccomp_profile`. (The groups that it also builds are dropped.)
unfoldable pub build_seccomp_profile : OrdSet Text → SeccompProfile
build_seccomp_profile observed = record {
  default_action = codes "SCMP_ACT_ERRNO";
  architectures = codes "SCMP_ARCH_X86_64" ∷ codes "SCMP_ARCH_X86" ∷ codes "SCMP_ARCH_AARCH64" ∷ [];
  syscalls =
      (record {
        names = with_openat2 (insert_all engine_syscalls observed);
        action = codes "SCMP_ACT_ALLOW";
      })
      ∷ [];
}
