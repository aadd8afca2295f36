-- ===== src/Scheduler/Lifecycle/Fpu.antt =====
-- The lazy switch of the FPU loses the registers of no live task.
use native.Mathlib.Decide.{ℕ_discrete}
use libhermit_mpk.Prelude.{
  subst, ℕ, ◌≡◌, refl, true, false, ◌==◌, if◌then◌else◌, arith, Bool-cases, inl, inr,
}
use libhermit_mpk.Scheduler.Task.{Tasks}
use libhermit_mpk.Scheduler.Kernel.{PerCoreScheduler}
use libhermit_mpk.Scheduler.Lifecycle.{lives, save_fpu, fpu_switch}

-- The FPU registers of a task: in the FPU if the task owns it, else in the task.
abbrev pub registers_of : Tasks → PerCoreScheduler → ℕ → ℕ → ℕ
registers_of ts s fpu a = if a == s.fpu_owner then fpu else (ts a).last_fpu_state

abbrev pub Keeps : Tasks → PerCoreScheduler → ℕ → Tasks × PerCoreScheduler × ℕ → Type 0
Keeps ts s fpu (us, s', fpu') =
    (s'.fpu_owner ≡ s.current_task)
    × ((a : ℕ) → lives (ts a).status ≡ true → registers_of us s' fpu' a ≡ registers_of ts s fpu a)

-- The saved registers of a live task.
save_fpu_lem :
    (ts : Tasks) (owner r a : ℕ)
    → lives (ts a).status ≡ true
    → (save_fpu ts owner r a).last_fpu_state ≡ (if a == owner then r else (ts a).last_fpu_state)
save_fpu_lem ts owner r a l = elim (ℕ_discrete a owner) [
  | yes e ↦
      let own : lives (ts owner).status ≡ true = subst (λ x. lives (ts x).status ≡ true) e l in
      rw (own, e) (ground arith)
  | no ne ↦ elim (Bool-cases (lives (ts owner).status)) [
    | inl own ↦ rw own (ground arith)
    | inr own ↦ rw own (ground arith)
  ]
]

registers_lem :
    (ts : Tasks) (current owner r a : ℕ)
    → (current == owner) ≡ false
    → lives (ts a).status ≡ true
    → (if a == current then (ts current).last_fpu_state else (save_fpu ts owner r a).last_fpu_state)
      ≡ (if a == owner then r else (ts a).last_fpu_state)
registers_lem ts current owner r a other l = elim (ℕ_discrete a current) [
  | yes e ↦ rw (e, other) (ground arith)
  | no ne ↦ ground (arith, save_fpu_lem ts owner r a l)
]

-- After `fpu_switch` the current task owns the FPU, and every task that is neither finished nor
-- invalid, on this core, has the registers that it had.
pub fpu_switch-Keeps :
    (ts : Tasks) (s : PerCoreScheduler) (fpu : ℕ) → Keeps ts s fpu (fpu_switch ts s fpu)
unfolding fpu_switch
fpu_switch-Keeps ts s fpu = elim (Bool-cases (s.current_task == s.fpu_owner)) [
  | inl same ↦ rw same (ground arith, λ a l. refl)
  | inr other ↦ rw other (refl, λ a l. registers_lem ts s.current_task s.fpu_owner fpu a other l)
]
