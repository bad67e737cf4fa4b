-- ===== src/Boundary.antt =====
-- src/hosts/host_boundary.py, class `HostBoundary`, and the resources of `LinuxHost` in
-- src/hosts/linux_host.py that a boundary rolls back. The host keeps the system calls that have closed a
-- descriptor or ended a child; the errors that the source catches there are passed over.
pub mod Recovers
pub mod Nested
use l.Base.{
  ℕ, zero, suc, String, Bool, true, false, Option, some, none, List, [], ◌∷◌, ◌++◌, length, map,
  if◌then◌else◌, str_eq, take,
}
use l.Base.Results.{Result, ok, err}

pub record LinuxFd : Type 0 where
  pub fd : ℕ
  pub closed : Bool

-- none stands for the pidfd -1
pub record LinuxChild : Type 0 where
  pub pid : ℕ
  pub pidfd : Option ℕ
  pub pgid : ℕ
  pub waited : Bool

-- os.close; the signal to a pidfd, with os.kill of the pid where that fails; os.kill; os.waitid of a
-- pidfd; os.waitpid
pub data SystemCall : Type 0 where
  close : ℕ → SystemCall
  kill_pidfd : ℕ → ℕ → SystemCall
  kill_pid wait_pidfd wait_pid : ℕ → SystemCall

-- with the system calls of `_contain_fd` and `_contain_child`, in their order
pub record LinuxHost : Type 0 where
  pub fds : List LinuxFd
  pub children : List LinuxChild
  pub calls : List SystemCall

unfoldable pub contain_fd : LinuxFd → List SystemCall × LinuxFd
contain_fd d = if d.closed then ([], d) else (close d.fd ∷ [], record d { closed = true })

abbrev pub end_child : Option ℕ → ℕ → List SystemCall
end_child (some pidfd) pid = kill_pidfd pidfd pid ∷ wait_pidfd pidfd ∷ close pidfd ∷ []
end_child none pid = kill_pid pid ∷ wait_pid pid ∷ []

unfoldable pub contain_child : LinuxChild → List SystemCall × LinuxChild
contain_child c =
    if c.waited
    then ([], c)
    else (end_child c.pidfd c.pid, record c { pidfd = none; waited = true })

-- for x in xs[n:]: contain(x), where the list keeps the objects
unfoldable pub contain_from :
    {A : Type 0} → (A → List SystemCall × A) → ℕ → List A → List SystemCall × List A
contain_from f n [] = ([], [])
contain_from f zero (x ∷ xs) =
    let here = f x in let rest = contain_from f zero xs in (here.0 ++ rest.0, here.1 ∷ rest.1)
contain_from f (suc n) (x ∷ xs) = let rest = contain_from f n xs in (rest.0, x ∷ rest.1)

abbrev pub linux_checkpoint : LinuxHost → ℕ × ℕ
linux_checkpoint h = (length h.fds, length h.children)

unfoldable pub linux_rollback : ℕ × ℕ → LinuxHost → LinuxHost
unfolding contain_fd contain_child contain_from
linux_rollback (nfd, nchild) h =
    let fds = contain_from contain_fd nfd h.fds in
    let children = contain_from contain_child nchild h.children in
    record { fds = fds.1; children = children.1; calls = h.calls ++ (fds.0 ++ children.0) }

-- cleanup
unfoldable pub linux_cleanup : LinuxHost → LinuxHost
unfolding contain_fd contain_child contain_from
linux_cleanup h =
    let fds = contain_from contain_fd zero h.fds in
    let children = contain_from contain_child zero h.children in
    record { fds = fds.1; children = children.1; calls = h.calls ++ (fds.0 ++ children.0) }

-- A host that a boundary can roll back; `no_host` stands for a host that is None.
pub record Recoverable : Type 1 where
  pub Resources : Type 0
  pub Saved : Type 0
  pub checkpoint : Resources → Saved
  pub rollback : Saved → Resources → Resources

abbrev keep_state : Unit {0} → Unit {0} → Unit {0}
keep_state s h = h

abbrev nothing_saved : Unit {0} → Unit {0}
nothing_saved h = h

abbrev pub no_host : Recoverable
no_host = record {
  Resources = Unit {0};
  Saved = Unit {0};
  checkpoint = nothing_saved;
  rollback = keep_state;
}

abbrev pub linux : Recoverable
linux = record {
  Resources = LinuxHost;
  Saved = ℕ × ℕ;
  checkpoint = linux_checkpoint;
  rollback = linux_rollback;
}

-- What a callback raises: TrapSig and LangError with their texts, RecursionError, and what the boundary
-- does not catch.
pub data Raised : Type 0 where
  trap_sig lang_error : String → Raised
  recursion_error uncaught : Raised

abbrev pub or_name : String → String → String
or_name text name = if str_eq text "" then name else text

abbrev pub trap_message : Raised → String
trap_message (trap_sig t) = or_name t "TrapSig"
trap_message (lang_error t) = or_name t "LangError"
trap_message recursion_error = "call depth exceeded"
trap_message uncaught = ""

pub data Answer (V : Type 0) : Type 0 where
  call_ok : V → Answer V
  call_trap : String → Answer V
  propagated : Raised → Answer V

-- `del stack[depth:]` for the stacks and their depths
unfoldable pub cut_stacks : {F : Type 0} → List (List F) → List ℕ → List (List F)
cut_stacks (s ∷ ss) (n ∷ ns) = take n s ∷ cut_stacks ss ns
cut_stacks ss _ = ss

abbrev pub depths : {F : Type 0} → List (List F) → List ℕ
depths ss = map length ss

module _ (proc term linux_host : Recoverable) (F V : Type 0) where
  pub record World : Type 0 where
    pub proc_state : proc.Resources
    pub term_state : term.Resources
    pub linux_state : linux_host.Resources
    pub stacks : List (List F)

  -- self._snapshot(), and the depths of the stacks
  abbrev pub rolled_back : World → World → World
  rolled_back before after = record {
    linux_state = linux_host.rollback (linux_host.checkpoint before.linux_state) after.linux_state;
    term_state = term.rollback (term.checkpoint before.term_state) after.term_state;
    proc_state = proc.rollback (proc.checkpoint before.proc_state) after.proc_state;
    stacks = cut_stacks after.stacks (depths before.stacks);
  }

  abbrev pub contained : Raised → World → World → Answer V × World
  contained uncaught before after = (propagated uncaught, after)
  contained e before after = (call_trap (trap_message e), rolled_back before after)

  abbrev pub settle : World → Result Raised V × World → Answer V × World
  settle before (ok v, after) = (call_ok v, after)
  settle before (err e, after) = contained e before after

  unfoldable pub boundary_call : (World → Result Raised V × World) → World → Answer V × World
  boundary_call fn before = settle before (fn before)
