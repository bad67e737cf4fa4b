-- ===== src/Examples/Hosts.antt =====
-- Runs and instances for the boundary of src/hosts/host_boundary.py.
use l.Base.{ℕ, Bool, true, false, some, none, [], ◌∷◌, ◌≡◌, refl, arith}
use l.Base.Results.{Result, err}
use l.Boundary.{
  LinuxFd, LinuxChild, linux_rollback, SystemCall, close, kill_pidfd, wait_pidfd, no_host, linux,
  Raised, trap_sig, call_trap, World, boundary_call, cut_stacks,
}
use l.Boundary.Recovers.{Contained, boundary_call-Contained}
use l.Boundary.Nested.{count_if, rollback_nested}

abbrev open_fd : ℕ → LinuxFd
open_fd n = record { fd = n; closed = false }

abbrev closed_fd : ℕ → LinuxFd
closed_fd n = record { fd = n; closed = true }

abbrev child : LinuxChild
child = record { pid = 40; pidfd = some 9; pgid = 40; waited = false }

abbrev before : World no_host no_host linux ℕ ℕ
before = record {
  proc_state = tt;
  term_state = tt;
  linux_state = record { fds = open_fd 3 ∷ []; children = []; calls = [] };
  stacks = (1 ∷ []) ∷ [];
}

abbrev left : World no_host no_host linux ℕ ℕ
left = record {
  proc_state = tt;
  term_state = tt;
  linux_state = record { fds = open_fd 3 ∷ open_fd 7 ∷ []; children = child ∷ []; calls = [] };
  stacks = (1 ∷ 2 ∷ 3 ∷ []) ∷ [];
}

abbrev after : World no_host no_host linux ℕ ℕ
after = record {
  proc_state = tt;
  term_state = tt;
  linux_state = record {
    fds = open_fd 3 ∷ closed_fd 7 ∷ [];
    children = record { pid = 40; pidfd = none; pgid = 40; waited = true } ∷ [];
    calls = close 7 ∷ kill_pidfd 9 40 ∷ wait_pidfd 9 ∷ close 9 ∷ [];
  };
  stacks = (1 ∷ []) ∷ [];
}

-- opens a descriptor, starts a child, and traps two calls deep
abbrev callback :
    World no_host no_host linux ℕ ℕ → Result Raised ℕ × World no_host no_host linux ℕ ℕ
callback w = (err (trap_sig "out of range"), left)

contains_trap :
    boundary_call no_host no_host linux ℕ ℕ callback before ≡ (call_trap "out of range", after)
unfolding boundary_call linux_rollback cut_stacks
contains_trap = refl

boundary_call-Contained_example : Contained no_host no_host ℕ ℕ callback "out of range" before after
boundary_call-Contained_example =
    boundary_call-Contained no_host no_host ℕ ℕ callback "out of range" before after contains_trap

abbrev is_close : SystemCall → Bool
is_close (close n) = true
is_close _ = false

rollback_nested_example :
    ((linux_rollback (1, 0) (linux_rollback (2, 1) left.linux_state)).fds
      ≡ (linux_rollback (1, 0) left.linux_state).fds)
    × ((linux_rollback (1, 0) (linux_rollback (2, 1) left.linux_state)).children
        ≡ (linux_rollback (1, 0) left.linux_state).children)
    × (count_if is_close (linux_rollback (1, 0) (linux_rollback (2, 1) left.linux_state)).calls ≡ 2)
rollback_nested_example =
    rollback_nested (1, 0) (2, 1) left.linux_state is_close (omega arith) (omega arith)
