-- ===== src/Attester/Discover/Checkpoint.antt =====
-- The checkpoint of crates/xusdc-light-attester/src/attester.rs moves only with the scan: the admin
-- commands leave it alone.
use miden_usdcx.Prelude.{
  ℕ, zero, suc, ◌≡◌, refl, sym, ap, ◌∙◌, inl, inr, Bool, [], ◌∷◌, ok, Result-cases,
}
use miden_usdcx.Store.{Store}
use miden_usdcx.Store.Holds.{Released, ReleaseSelection, release_checked, release_hold}
use miden_usdcx.Store.Sound.Holds.{release_checked_lem, release_hold_lem}
use miden_usdcx.Attester.Loop.{
  Commands, handle_admin, handle_commands, admin_checkpoint, admin_commands_per_checkpoint,
}

release_hold-checkpoint :
    (s : Store) (now k : ℕ) (checked : Bool) (p : Store × Released)
    → release_hold s now k checked ≡ ok p
    → p.0.checkpoint ≡ s.checkpoint
release_hold-checkpoint s now k checked p h = elim (release_hold_lem s now k checked p h) [
  | inl (e, held, q) ↦ ap (λ (t : Store). t.checkpoint) (sym q)
  | inr (e, free, releasable, confirmed, q) ↦ ap (λ (t : Store). t.checkpoint) (sym q)
]

handle_admin-checkpoint :
    (s : Store) (now : ℕ) (selection : ReleaseSelection)
    → (handle_admin s now selection).checkpoint ≡ s.checkpoint
unfolding handle_admin
handle_admin-checkpoint s now selection = elim (Result-cases (release_checked s now selection)) [
  | inr (x, e) ↦ rw (e, handle_admin) refl
  | inl (p, e) ↦
      rw (e, handle_admin)
        (release_hold-checkpoint s now selection.note_id selection.circle_not_accepted p
          (release_checked_lem s now selection p e).2)
]

handle_commands-checkpoint :
    (left : ℕ) (s : Store) (commands : Commands)
    → (handle_commands left s commands).checkpoint ≡ s.checkpoint
unfolding handle_commands
handle_commands-checkpoint zero s commands = refl
handle_commands-checkpoint (suc left) s [] = refl
handle_commands-checkpoint (suc left) s ((now, selection) ∷ rest) =
    handle_commands-checkpoint left (handle_admin s now selection) rest
    ∙ handle_admin-checkpoint s now selection

pub admin_checkpoint-checkpoint :
    (s : Store) (commands : Commands) → (admin_checkpoint s commands).checkpoint ≡ s.checkpoint
unfolding admin_checkpoint
admin_checkpoint-checkpoint s commands =
    handle_commands-checkpoint admin_commands_per_checkpoint s commands
