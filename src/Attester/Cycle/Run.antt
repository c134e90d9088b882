-- ===== src/Attester/Cycle/Run.antt =====
-- Whole cycles of crates/xusdc-light-attester/src/attester.rs, and runs of them: everything that they
-- write is a sequence of the store's own steps.
use miden_usdcx.Prelude.{
  ℕ, zero, ◌≡◌, ◌≢◌, refl, subst, inl, inr, Bool, true, false, Option, none, some, List, [], ◌∷◌,
  arith, All, ok, Option-cases, Result-cases, >>=-eq-ok, length,
}
use miden_usdcx.Circle.{Wire}
use miden_usdcx.Burn.{NoteCodec, DiscoveredBurn}
use miden_usdcx.Config.{Config}
use miden_usdcx.Submission.{SavedSubmission}
use miden_usdcx.Verify.Types.{Libraries}
use miden_usdcx.Sql.Apart.{Apart, Without}
use miden_usdcx.Store.{Store, submission_at}
use miden_usdcx.Store.Submissions.{submissions_to_recover, submissions_to_poll}
use miden_usdcx.Store.Sound.{IsSound}
use miden_usdcx.Store.Sound.Limits.{no_accepted}
use miden_usdcx.Store.Steps.{Reach, here, Reach-IsSound}
use miden_usdcx.Store.Steps.Works.{IsPending}
use miden_usdcx.Store.Reads.Ready.{IsDue, is_free, burns_ready_for_withdrawal-IsDue}
use miden_usdcx.Attester.Sound.{Reach-trans}
use miden_usdcx.Attester.Loop.{Turn, admin_checkpoint, advance_submissions, handle_commands}
use miden_usdcx.Attester.Refinement.{Reached, notes_free}
use miden_usdcx.Attester.Keeps.{advance_submissions_keeps}
use miden_usdcx.Attester.Discover.{Discovery, discover_burns}
use miden_usdcx.Attester.Discover.Chain.{discover_burns-Discovers}
use miden_usdcx.Attester.Cycle.{
  World, Snapshot, Pass, with_turns, ready_burns, snapshot_work, work_through, after_discovery,
  discovery_outcome, cycle, finish_cycle, next_pause, run,
}
use miden_usdcx.Attester.Submit.{BurnTurn, submit_withdrawals}
use miden_usdcx.Attester.Cycle.Pending.{advance_submissions-Good}
use miden_usdcx.Attester.Commands.{admin_checkpoint-Works, handle_commands-Works}
use miden_usdcx.Attester.Cycle.Sound.{
  entry_note, AllPending, Keeps, Reached-Keeps, submit_withdrawals_keeps,
}
use miden_usdcx.Attester.Cycle.Fresh.{
  burn_note, IsSending, submissions_to_recover-IsSending, not_sending, burns_ready-Apart,
}

is_free-no_accepted : (r : Option SavedSubmission) → is_free r ≡ true → no_accepted r ≡ true
is_free-no_accepted none h = refl
is_free-no_accepted (some r) h = ground arith

-- A burn that is free to be withdrawn.
abbrev IsFree : Store → DiscoveredBurn → Type 0
IsFree s d = IsPending s d.note.id × (is_free (submission_at s d.note.id) ≡ true)

ready-IsFree :
    (s : Store) (lag depth : ℕ) (burns : List DiscoveredBurn)
    → All (IsDue s lag depth) burns
    → All (IsFree s) burns
ready-IsFree s lag depth [] a = tt
ready-IsFree s lag depth (d ∷ burns) a =
    let r = a.0 in
    (
      (
        (
          ground (arith, r.found, r.consumed),
          is_free-no_accepted (submission_at s d.note.id) r.free,
        ),
        r.free,
      ),
      ready-IsFree s lag depth burns a.1,
    )

turns-others :
    (turn : SavedSubmission → Turn) (j : ℕ) (rs : List SavedSubmission)
    → All (λ r. j ≢ r.note_id) rs
    → All (λ i. j ≢ i.0.note_id) (with_turns turn rs)
turns-others turn j [] a = tt
turns-others turn j (r ∷ rs) a = (a.0, turns-others turn j rs a.1)

turns-Without :
    (turn : DiscoveredBurn → BurnTurn) (k : ℕ) (burns : List DiscoveredBurn)
    → Without burn_note k burns
    → Without entry_note k (with_turns turn burns)
turns-Without turn k [] a = tt
turns-Without turn k (d ∷ burns) a = (a.0, turns-Without turn k burns a.1)

turns-Apart :
    (turn : DiscoveredBurn → BurnTurn) (burns : List DiscoveredBurn)
    → Apart burn_note burns
    → Apart entry_note (with_turns turn burns)
turns-Apart turn [] a = tt
turns-Apart turn (d ∷ burns) a =
    (turns-Without turn d.note.id burns a.0, turns-Apart turn burns a.1)

module _ (codec : NoteCodec) (w : Wire) (l : Libraries) (config : Config)
    (known : w.status_is_valid 400 ≡ true) where
  -- Recovery leaves the snapshot's fresh burns pending.
  recovered-AllPending :
      (s : Store) (limited : Bool) (recover : SavedSubmission → Turn)
      (turn : DiscoveredBurn → BurnTurn) (rs : List SavedSubmission) (burns : List DiscoveredBurn)
      → IsSound w s
      → All (IsSending s) rs
      → All (IsFree s) burns
      → AllPending
          (advance_submissions w config s limited (with_turns recover rs)).store
          (with_turns turn burns)
  recovered-AllPending s limited recover turn rs [] v sending free = tt
  recovered-AllPending s limited recover turn rs (d ∷ burns) v sending free = (
    (advance_submissions-Good codec w config known d.note.id s limited (with_turns recover rs)
        (turns-others recover d.note.id rs (not_sending s d.note.id rs free.0.1 sending))
        (v, free.0.0)).1,
    recovered-AllPending s limited recover turn rs burns v sending free.1,
  )

  work_through_keeps :
      (P : Store → Type 0) (world : World) (s : Store) (limited : Bool) (work : Snapshot)
      (discover : _)
      → Keeps w codec P
      → P s
      → All (IsSending s) work.to_recover
      → All (IsFree s) work.fresh_burns
      → Apart burn_note work.fresh_burns
      → P (work_through w l codec config world s limited work discover).store
  unfolding work_through
  work_through_keeps P world s limited work discover keeps p sending free apart =
      let loop =
        advance_submissions_keeps codec w config P (λ k. Unit {0}) zero tt
          (λ t q. (keeps.sound t q).submission_keys) (λ t u k on r q. keeps.keep t u k r q) in
      let recover = with_turns world.recover_turn work.to_recover in
      let done = advance_submissions w config s limited recover in
      let first = loop s limited recover (notes_free recover) p in
      let items = with_turns world.burn_turn work.fresh_burns in
      let sent = submit_withdrawals w l config done.store done.rate_limited none items in
      let second =
        submit_withdrawals_keeps w l config known P done.store done.rate_limited none items keeps
          (turns-Apart world.burn_turn work.fresh_burns apart)
          (recovered-AllPending s limited world.recover_turn world.burn_turn work.to_recover
            work.fresh_burns (keeps.sound s p) sending free)
          first in
      let poll = with_turns world.poll_turn work.to_poll in
      let third = loop sent.store sent.rate_limited poll (notes_free poll) second in
      elim (Result-cases done.result) [
        | inr (x, e) ↦ rw (e, work_through) first
        | inl (u, e) ↦ elim (Result-cases sent.result) [
          | inr (x, f) ↦ rw (e, f, work_through) second
          | inl (r, f) ↦ rw (e, f, work_through) third
        ]
      ]

  -- What the snapshot of a well-formed store holds.
  ready_burns-IsFree :
      (s : Store) (lag : Option ℕ) (burns : List DiscoveredBurn)
      → IsSound w s
      → ready_burns w l codec config s lag ≡ ok burns
      → All (IsFree s) burns × Apart burn_note burns
  unfolding ready_burns
  ready_burns-IsFree s none burns v h =
      let p : [] ≡ burns = ground arith in
      (subst (All (IsFree s)) p tt, subst (Apart burn_note) p tt)
  ready_burns-IsFree s (some lag) burns v h =
      let depth = config.minimum_finality_depth_blocks in
      (
        ready-IsFree s lag depth burns (
            burns_ready_for_withdrawal-IsDue codec s config.faucet_account_id v.submission_keys lag
              depth burns v.burn_keys h),
        burns_ready-Apart codec s config.faucet_account_id lag depth burns v.burn_keys h,
      )

  after_discovery_keeps :
      (P : Store → Type 0) (world : World) (s : Store) (limited : Bool) (lag : Option ℕ)
      (discover : _)
      → Keeps w codec P
      → P s
      → P (after_discovery w l codec config world s limited (lag, discover)).store
  unfolding snapshot_work after_discovery
  after_discovery_keeps P world s limited lag discover keeps p =
      let v = keeps.sound s p in
      elim (Result-cases (snapshot_work w l codec config s lag)) [
        | inr (x, e) ↦ rw (e, after_discovery) p
        | inl (work, e) ↦
            let (rs, f, h1) = >>=-eq-ok (submissions_to_recover w s) _ e in
            let (ps, g, h2) = >>=-eq-ok (submissions_to_poll w s) _ h1 in
            let (burns, k, h3) = >>=-eq-ok (ready_burns w l codec config s lag) _ h2 in
            let q : record { to_recover = rs; to_poll = ps; fresh_burns = burns } ≡ work =
              ground arith in
            let (free, apart) = ready_burns-IsFree s lag burns v k in
            rw (e, after_discovery)
              (work_through_keeps P world s limited work discover keeps p
                (subst (λ (x : Snapshot). All (IsSending s) x.to_recover) q
                  (submissions_to_recover-IsSending w s rs v.submission_keys f))
                (subst (λ (x : Snapshot). All (IsFree s) x.fresh_burns) q free)
                (subst (λ (x : Snapshot). Apart burn_note x.fresh_burns) q apart))
      ]

  -- The discovery that starts a cycle.
  abbrev pub found_in : World → Store → Discovery
  found_in world s =
      discover_burns codec config.faucet_account_id world.reader world.block_commands
        config.trusted_anchor_block s

  -- A property that a cycle's discovery keeps, if the node is one of these.
  abbrev pub KeptBy : (Store → Type 0) → World → Type 0
  KeptBy P world = (s : Store) → P s → P (found_in world s).store

  -- A cycle keeps it, wherever it stops.
  pub cycle_keeps :
      (P : Store → Type 0) (world : World) (s : Store) (limited : Bool)
      → Keeps w codec P
      → KeptBy P world
      → P s
      → P (cycle w l codec config world s limited).store
  unfolding cycle
  cycle_keeps P world s limited keeps scan p =
      let found = found_in world s in
      let first = scan s p in
      elim (Result-cases (discovery_outcome found.result)) [
        | inr (x, e) ↦ rw (e, cycle) first
        | inl ((lag, discover), e) ↦
            rw (e, cycle)
              (after_discovery_keeps P world found.store limited lag discover keeps first)
      ]

  -- And so does a run.
  pub run_keeps :
      (P : Store → Type 0) (passes : List Pass) (s : Store) (pause : ℕ) (pauses : List ℕ)
      → Keeps w codec P
      → All (λ pass. KeptBy P pass.world) passes
      → P s
      → P (run w l codec config s pause pauses passes).store
  unfolding run
  run_keeps P [] s pause pauses keeps scan p = p
  run_keeps P (pass ∷ rest) s pause pauses keeps scan p =
      let now = admin_checkpoint s pass.before in
      let done = cycle w l codec config pass.world now false in
      let cycled =
        cycle_keeps P pass.world now false keeps scan.0
          (keeps.keep s now zero (admin_checkpoint-Works zero w s pass.before) p) in
      let during = pass.during_pause in
      let after = handle_commands (length during) done.store during in
      let handled =
        keeps.keep done.store after zero
          (handle_commands-Works zero w (length during) done.store during) cycled in
      let pause' = next_pause config.poll_interval done.rate_limited pause in
      elim (Result-cases (finish_cycle done.result)) [
        | inr (x, e) ↦ rw (e, run) cycled
        | inl (u, e) ↦
            rw (e, run) (run_keeps P rest after pause' (pause' ∷ pauses) keeps scan.1 handled)
      ]

  found_in-Reach : (world : World) (s : Store) → Reach w codec s (found_in world s).store
  unfolding discover_burns
  found_in-Reach world s = elim (Option-cases s.checkpoint) [
    | inl e ↦ rw e here
    | inr (checkpoint, e) ↦
        (discover_burns-Discovers w codec config.faucet_account_id world.reader world.block_commands
          config.trusted_anchor_block s checkpoint e).reached
  ]

  found_in-Reached : (s : Store) (world : World) → KeptBy (Reached w codec s) world
  found_in-Reached s world t p =
      let r = found_in-Reach world t in (Reach-trans p.0 r, Reach-IsSound known r p.1)

  each_world :
      (s : Store) (passes : List Pass) → All (λ pass. KeptBy (Reached w codec s) pass.world) passes
  each_world s [] = tt
  each_world s (pass ∷ passes) = (found_in-Reached s pass.world, each_world s passes)

  -- Any number of cycles, with the commands that operators send in between, moves a well-formed
  -- store by steps of the store's relation only. Status 400 must be a valid HTTP status.
  pub run-Reach :
      (passes : List Pass) (s : Store) (pause : ℕ) (pauses : List ℕ)
      → IsSound w s
      → Reach w codec s (run w l codec config s pause pauses passes).store
  run-Reach passes s pause pauses v =
      (run_keeps (Reached w codec s) passes s pause pauses (Reached-Keeps w codec s known)
        (each_world s passes) (here, v)).0
