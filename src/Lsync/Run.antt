-- ===== src/Lsync/Run.antt =====
-- A run of the L1Sync state machine: l1e_run_state_machine (proto-ext-l1sync/l1e-state-machine.c).
use mathlib.Core.Path.{subst}
use ppsi.Ds.{to_l1e_rx_sync, to_l1e_tx_sync}
use ppsi.Lsync.Events.{is_state_ok, le1_evt_config_ok}
use ppsi.Lsync.Order.{
  Below, IsSafe, config_match-IsSafe, disabled-IsSafe, handle_up-IsSafe, idle-IsSafe,
  link_alive-IsSafe, set_sync-port,
}
use ppsi.Lsync.Port.{SyncEnv, SyncPort, SyncState, SyncWorld, set_sync, sync_value}
use ppsi.Lsync.Steps.{
  check_rx_timer, is_new, is_off, l1e_empty_action, l1e_run_state_machine, le1_state_action,
  next_delay, prepare, run_prepared, start_rx_timer,
}
use ppsi.Prelude.{
  Bool, ap, arith, false, if_case, if_either, if◌then◌else◌, inl, inr, is_zero, leb, refl, sym,
  true, update_self, ℕ, ℤ, ◌<◌, ◌||◌, ◌∙◌, ◌≡◌, ◌⊎◌,
}
use ppsi.Timeout.Defs.{pp_timeout}

state-Below :
    {s : SyncState} (w : SyncWorld) (ppi : ℕ)
    → s ≡ (w.sync_ports ppi).l1sync_next_state
    → sync_value s < 5
    → Below (w.sync_ports ppi)
state-Below w ppi e h = subst (λ s. sync_value s < 5) e h

finish-IsSafe :
    (w : SyncWorld) (ppi : ℕ) (b : Bool)
    → IsSafe (w.sync_ports ppi)
    → IsSafe
        ((set_sync w ppi (record (w.sync_ports ppi) { execute_state_machine = b })).sync_ports ppi)
unfolding le1_evt_config_ok is_state_ok
finish-IsSafe w ppi b h =
    set_sync-port IsSafe w ppi (record (w.sync_ports ppi) { execute_state_machine = b }) h

not_run :
    (q : SyncPort)
    → q.execute_state_machine ≡ false
    → Below q ⊎ (q.execute_state_machine ≡ true)
    → IsSafe q
not_run q rests (inl h) = inl h
not_run q rests (inr h) = cc

-- The action runs on a state that lies within the table.
action-IsSafe :
    (env : SyncEnv) (s : SyncState) (w : SyncWorld) (ppi : ℕ) (n : Bool)
    → s ≡ (w.sync_ports ppi).l1sync_next_state
    → sync_value s < 6
    → IsSafe ((le1_state_action env s w ppi n).0.sync_ports ppi)
unfolding le1_state_action l1e_empty_action
action-IsSafe env SyncState.sync_missing w ppi n e h = inl (state-Below w ppi e (omega arith))
action-IsSafe env SyncState.sync_disabled w ppi n e h =
    disabled-IsSafe env w ppi n (state-Below w ppi e (omega arith))
action-IsSafe env SyncState.sync_idle w ppi n e h =
    idle-IsSafe env w ppi n (state-Below w ppi e (omega arith))
action-IsSafe env SyncState.sync_link_alive w ppi n e h =
    link_alive-IsSafe env w ppi n (state-Below w ppi e (omega arith))
action-IsSafe env SyncState.sync_config_match w ppi n e h =
    config_match-IsSafe env w ppi n (state-Below w ppi e (omega arith))
action-IsSafe env SyncState.sync_up w ppi n e h = handle_up-IsSafe env w ppi n
action-IsSafe env SyncState.beyond w ppi n e h = omega arith

run_prepared-IsSafe :
    (env : SyncEnv) (w : SyncWorld) (ppi : ℕ) (n : Bool)
    → (w.sync_ports ppi).l1sync_state ≡ (w.sync_ports ppi).l1sync_next_state
    → sync_value (w.sync_ports ppi).l1sync_next_state < 6
    → Below (w.sync_ports ppi) ⊎ ((w.sync_ports ppi).execute_state_machine ≡ true)
    → IsSafe ((run_prepared env w ppi n).0.sync_ports ppi)
unfolding run_prepared
run_prepared-IsSafe env w ppi n same bound h =
    let q = w.sync_ports ppi in
    let acted : SyncWorld × ℤ =
      if q.execute_state_machine
      then le1_state_action env q.l1sync_state w ppi n
      else (w, next_delay w ppi) in
    finish-IsSafe acted.0 ppi (is_zero acted.1) (
      if_case q.execute_state_machine (λ (r : SyncWorld × ℤ). IsSafe (r.0.sync_ports ppi))
        (λ runs.
          action-IsSafe env q.l1sync_state w ppi n same
            (subst (λ s. sync_value s < 6) (sym same) bound))
        (λ rests. not_run q rests h))

-- The receive timer leaves the states alone.
check_rx_timer-next :
    (w : SyncWorld) (ppi : ℕ)
    → ((check_rx_timer w ppi).sync_ports ppi).l1sync_next_state
      ≡ (w.sync_ports ppi).l1sync_next_state
unfolding check_rx_timer start_rx_timer
check_rx_timer-next w ppi =
    let q = w.sync_ports ppi in
    if_either (pp_timeout w.sync_globals ppi to_l1e_rx_sync)
      (λ (v : SyncWorld). (v.sync_ports ppi).l1sync_next_state ≡ q.l1sync_next_state)
      (ap (λ (p : SyncPort). p.l1sync_next_state)
        (update_self w.sync_ports ppi
          (record q { l1sync_link_alive = false; execute_state_machine = true })))
      refl

-- The prepared port is in its next state.
prepare-states :
    (w : SyncWorld) (ppi : ℕ) (n : Bool)
    → (((prepare w ppi n).sync_ports ppi).l1sync_state ≡ (w.sync_ports ppi).l1sync_next_state)
      × (((prepare w ppi n).sync_ports ppi).l1sync_next_state
          ≡ (w.sync_ports ppi).l1sync_next_state)
unfolding prepare
prepare-states w ppi n =
    let q = record (w.sync_ports ppi) { is_tx_coherent = (w.sync_globals.inst ppi).link_up } in
    let w0 = set_sync w ppi q in
    let w1 = check_rx_timer w0 ppi in
    let next : (w1.sync_ports ppi).l1sync_next_state ≡ q.l1sync_next_state =
      check_rx_timer-next w0 ppi
      ∙ ap (λ (p : SyncPort). p.l1sync_next_state) (update_self w.sync_ports ppi q) in
    set_sync-port
      (λ (p : SyncPort).
        (p.l1sync_state ≡ q.l1sync_next_state) × (p.l1sync_next_state ≡ q.l1sync_next_state))
      w1 ppi
      (record (w1.sync_ports ppi) {
        l1sync_state = (w1.sync_ports ppi).l1sync_next_state;
        execute_state_machine =
            ((w1.sync_ports ppi).execute_state_machine
              || pp_timeout w1.sync_globals ppi to_l1e_tx_sync)
            || n;
      })
      (next, next)

-- The action of the state runs: the extension is on, the state lies in the table, and the
-- machine was told to go on, a timer has run out or the state is new.
abbrev pub Runs : SyncWorld → ℕ → Type 0
Runs w ppi =
    (is_off w ppi ≡ false)
    × (sync_value (w.sync_ports ppi).l1sync_next_state < 6)
    × (((prepare w ppi (is_new w ppi)).sync_ports ppi).execute_state_machine ≡ true)

-- What is asked of the prepared port.
prepared_case :
    (w : SyncWorld) (ppi : ℕ)
    → Below (w.sync_ports ppi) ⊎ Runs w ppi
    → Below ((prepare w ppi (is_new w ppi)).sync_ports ppi)
      ⊎ (((prepare w ppi (is_new w ppi)).sync_ports ppi).execute_state_machine ≡ true)
prepared_case w ppi (inl h) =
    inl (subst (λ s. sync_value s < 5) (sym (prepare-states w ppi (is_new w ppi)).1) h)
prepared_case w ppi (inr r) = inr r.2

off_case :
    (w : SyncWorld) (ppi : ℕ)
    → is_off w ppi ≡ true
    → Below (w.sync_ports ppi) ⊎ Runs w ppi
    → IsSafe (w.sync_ports ppi)
off_case w ppi off (inl h) = inl h
off_case w ppi off (inr r) = cc

not_past : {A : Type 0} (s : SyncState) → sync_value s < 6 → leb 6 (sync_value s) ≡ true → A
not_past s h past = ground arith

past_case :
    (w : SyncWorld) (ppi : ℕ)
    → leb 6 (sync_value (w.sync_ports ppi).l1sync_next_state) ≡ true
    → Below (w.sync_ports ppi) ⊎ Runs w ppi
    → IsSafe (w.sync_ports ppi)
past_case w ppi past (inl h) = inl h
past_case w ppi past (inr r) = not_past (w.sync_ports ppi).l1sync_next_state r.1 past

within : (s : SyncState) → leb 6 (sync_value s) ≡ false → sync_value s < 6
within s h = ground arith

-- From a next state below UP, or when the action of the state runs, a run of the state machine
-- ends with a next state below UP, or with the link alive, both sides configured alike and all
-- that is required holding on both sides.
pub l1e_run_state_machine-IsSafe :
    (env : SyncEnv) (w : SyncWorld) (ppi : ℕ)
    → Below (w.sync_ports ppi) ⊎ Runs w ppi
    → IsSafe ((l1e_run_state_machine env w ppi).0.sync_ports ppi)
unfolding l1e_run_state_machine
l1e_run_state_machine-IsSafe env w ppi h =
    let n = is_new w ppi in
    let states = prepare-states w ppi n in
    if_case (is_off w ppi) (λ (r : SyncWorld × ℤ). IsSafe (r.0.sync_ports ppi))
      (λ off. off_case w ppi off h)
      (λ on.
        if_case (leb 6 (sync_value (w.sync_ports ppi).l1sync_next_state))
          (λ (r : SyncWorld × ℤ). IsSafe (r.0.sync_ports ppi)) (λ past. past_case w ppi past h)
          (λ fits.
            run_prepared-IsSafe env (prepare w ppi n) ppi n (states.0 ∙ sym states.1)
              (subst (λ s. sync_value s < 6) (sym states.1)
                (within (w.sync_ports ppi).l1sync_next_state fits))
              (prepared_case w ppi h)))
