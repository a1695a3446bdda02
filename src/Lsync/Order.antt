-- ===== src/Lsync/Order.antt =====
-- When the L1Sync state machine goes to UP and stays there.
use mathlib.Core.Path.{subst}
use ppsi.Ds.{State, same_state, to_l1e_tx_sync}
use ppsi.Lsync.Events.{
  follow_state, is_state_ok, l1e_send_sync_msg, le1_evt_config_ok, le1_evt_state_ok,
}
use ppsi.Lsync.Port.{SyncEnv, SyncPort, SyncState, SyncWorld, set_sync, sync_value}
use ppsi.Lsync.Steps.{
  forget_all, forget_peer, go_to, is_slave_side, is_usable, iterate, l1e_handle_state_config_match,
  l1e_handle_state_disabled, l1e_handle_state_idle, l1e_handle_state_link_alive,
  l1e_handle_state_up, leave_up_for, set_sync_next, start_locking, start_rx_timer, start_up,
  up_or_leave, with_extension, without_extension,
}
use ppsi.Prelude.{
  Bool, Option, ap, arith, false, if_case, if_either, if◌then◌else◌, inl, inr, none, not, refl,
  some, sym, true, update_self, ℕ, ℤ, ◌&&◌, ◌<◌, ◌||◌, ◌∙◌, ◌≡◌, ◌⊎◌,
}
use ppsi.Timeout.Defs.{pp_timeout}

-- The link is alive, both sides are configured alike, and what is required holds on both sides.
abbrev pub UpOk : SyncPort → Type 0
UpOk q = (q.l1sync_link_alive ≡ true) × (le1_evt_config_ok q ≡ true) × (is_state_ok q ≡ true)

-- The next state lies below UP, or the conditions of UP hold.
abbrev pub IsSafe : SyncPort → Type 0
IsSafe q = (sync_value q.l1sync_next_state < 5) ⊎ UpOk q

-- The next state lies below UP.
abbrev pub Below : SyncPort → Type 0
Below q = sync_value q.l1sync_next_state < 5

pub set_sync-port :
    (P : SyncPort → Type 0) (w : SyncWorld) (ppi : ℕ) (q : SyncPort)
    → P q
    → P ((set_sync w ppi q).sync_ports ppi)
set_sync-port P w ppi q h = subst P (sym (update_self w.sync_ports ppi q)) h

go_to-IsSafe :
    (s : SyncState) (w : SyncWorld) (ppi : ℕ)
    → sync_value s < 5
    → IsSafe ((go_to s w ppi).0.sync_ports ppi)
go_to-IsSafe s w ppi h =
    set_sync-port IsSafe w ppi (record (w.sync_ports ppi) { l1sync_next_state = s }) (inl h)

send-port :
    (P : SyncPort → Type 0) (env : SyncEnv) (w : SyncWorld) (ppi : ℕ) (now : Bool)
    → P (w.sync_ports ppi)
    → P ((l1e_send_sync_msg env w ppi now).sync_ports ppi)
unfolding l1e_send_sync_msg
send-port P env w ppi now h =
    if_either (not now && not (pp_timeout w.sync_globals ppi to_l1e_tx_sync))
      (λ (v : SyncWorld). P (v.sync_ports ppi)) h h

iterate-port :
    (P : SyncPort → Type 0) (env : SyncEnv) (w : SyncWorld) (ppi : ℕ)
    → P (w.sync_ports ppi)
    → P ((iterate env w ppi).0.sync_ports ppi)
unfolding iterate
iterate-port P env w ppi h = send-port P env w ppi false h

pub disabled-IsSafe :
    (env : SyncEnv) (w : SyncWorld) (ppi : ℕ) (n : Bool)
    → Below (w.sync_ports ppi)
    → IsSafe ((l1e_handle_state_disabled env w ppi n).0.sync_ports ppi)
unfolding l1e_handle_state_disabled forget_all forget_peer
disabled-IsSafe env w ppi n h =
    let w1 = if n then set_sync w ppi (forget_all (w.sync_ports ppi)) else w in
    let h1 : Below (w1.sync_ports ppi) =
      if_either n (λ (v : SyncWorld). Below (v.sync_ports ppi))
        (set_sync-port Below w ppi (forget_all (w.sync_ports ppi)) h) h in
    if_either (is_usable w1 ppi) (λ (r : SyncWorld × ℤ). IsSafe (r.0.sync_ports ppi))
      (go_to-IsSafe SyncState.sync_idle w1 ppi (omega arith)) (inl h1)

pub idle-IsSafe :
    (env : SyncEnv) (w : SyncWorld) (ppi : ℕ) (n : Bool)
    → Below (w.sync_ports ppi)
    → IsSafe ((l1e_handle_state_idle env w ppi n).0.sync_ports ppi)
unfolding l1e_handle_state_idle forget_peer
idle-IsSafe env w ppi n h =
    let forgot = set_sync w ppi (forget_peer (w.sync_ports ppi)) in
    let w1 = if n then l1e_send_sync_msg env forgot ppi true else w in
    let h1 : Below (w1.sync_ports ppi) =
      if_either n (λ (v : SyncWorld). Below (v.sync_ports ppi))
        (send-port Below env forgot ppi true
          (set_sync-port Below w ppi (forget_peer (w.sync_ports ppi)) h))
        h in
    if_either (not (is_usable w1 ppi)) (λ (r : SyncWorld × ℤ). IsSafe (r.0.sync_ports ppi))
      (go_to-IsSafe SyncState.sync_disabled w1 ppi (omega arith))
      (if_either (w1.sync_ports ppi).l1sync_link_alive
        (λ (r : SyncWorld × ℤ). IsSafe (r.0.sync_ports ppi))
        (go_to-IsSafe SyncState.sync_link_alive w1 ppi (omega arith))
        (inl (iterate-port Below env w1 ppi h1)))

pub link_alive-IsSafe :
    (env : SyncEnv) (w : SyncWorld) (ppi : ℕ) (n : Bool)
    → Below (w.sync_ports ppi)
    → IsSafe ((l1e_handle_state_link_alive env w ppi n).0.sync_ports ppi)
unfolding l1e_handle_state_link_alive start_rx_timer
link_alive-IsSafe env w ppi n h =
    let w1 = if n then start_rx_timer w ppi else w in
    let h1 : Below (w1.sync_ports ppi) =
      if_either n (λ (v : SyncWorld). Below (v.sync_ports ppi)) h h in
    if_either (not (w1.sync_ports ppi).l1sync_link_alive)
      (λ (r : SyncWorld × ℤ). IsSafe (r.0.sync_ports ppi))
      (go_to-IsSafe SyncState.sync_idle w1 ppi (omega arith))
      (if_either
        (le1_evt_config_ok (w1.sync_ports ppi)
          && (is_slave_side w1 ppi || same_state (w1.sync_globals.inst ppi).state State.master))
        (λ (r : SyncWorld × ℤ). IsSafe (r.0.sync_ports ppi))
        (go_to-IsSafe SyncState.sync_config_match w1 ppi (omega arith))
        (inl (iterate-port Below env w1 ppi h1)))

-- What the check of the state leaves alone.
follow-kept :
    (env : SyncEnv) (w : SyncWorld) (ppi : ℕ)
    → ((follow_state env w ppi).l1sync_link_alive ≡ (w.sync_ports ppi).l1sync_link_alive)
      × (le1_evt_config_ok (follow_state env w ppi) ≡ le1_evt_config_ok (w.sync_ports ppi))
      × ((follow_state env w ppi).l1sync_next_state ≡ (w.sync_ports ppi).l1sync_next_state)
unfolding follow_state le1_evt_config_ok
follow-kept env w ppi = (ground arith, ground arith, ground arith)

-- UP, when the conditions were found to hold.
up-IsSafe :
    (env : SyncEnv) (w : SyncWorld) (ppi : ℕ)
    → (w.sync_ports ppi).l1sync_link_alive ≡ true
    → le1_evt_config_ok (w.sync_ports ppi) ≡ true
    → (le1_evt_state_ok env w ppi).1 ≡ true
    → UpOk ((le1_evt_state_ok env w ppi).0.sync_ports ppi)
unfolding le1_evt_state_ok
up-IsSafe env w ppi link config state =
    let kept = follow-kept env w ppi in
    set_sync-port UpOk w ppi (follow_state env w ppi) (kept.0 ∙ link, kept.1 ∙ config, state)

start_locking-port :
    (w : SyncWorld) (ppi : ℕ)
    → Below (w.sync_ports ppi)
    → Below ((start_locking w ppi).sync_ports ppi)
unfolding start_locking
start_locking-port w ppi h =
    let q = w.sync_ports ppi in
    if_either (is_slave_side w ppi && q.congruent_is_required)
      (λ (v : SyncWorld). Below (v.sync_ports ppi))
      (set_sync-port Below w ppi (record q { is_rx_coherent = false }) h) h

-- Going to UP from a port where its conditions hold.
go_up-IsSafe :
    (w : SyncWorld) (ppi : ℕ)
    → UpOk (w.sync_ports ppi)
    → IsSafe ((go_to SyncState.sync_up w ppi).0.sync_ports ppi)
unfolding le1_evt_config_ok is_state_ok
go_up-IsSafe w ppi h =
    set_sync-port IsSafe w ppi (record (w.sync_ports ppi) { l1sync_next_state = SyncState.sync_up })
      (inr h)

state_ok-Below :
    (env : SyncEnv) (w : SyncWorld) (ppi : ℕ)
    → Below (w.sync_ports ppi)
    → Below ((le1_evt_state_ok env w ppi).0.sync_ports ppi)
unfolding le1_evt_state_ok
state_ok-Below env w ppi h =
    let kept = follow-kept env w ppi in
    set_sync-port Below w ppi (follow_state env w ppi)
      (subst (λ s. sync_value s < 5) (sym kept.2) h)

was_true : (b : Bool) → not b ≡ false → b ≡ true
was_true true h = refl
was_true false h = cc

pub config_match-IsSafe :
    (env : SyncEnv) (w : SyncWorld) (ppi : ℕ) (n : Bool)
    → Below (w.sync_ports ppi)
    → IsSafe ((l1e_handle_state_config_match env w ppi n).0.sync_ports ppi)
unfolding l1e_handle_state_config_match
config_match-IsSafe env w ppi n h =
    let w1 = if n then start_locking w ppi else w in
    let q = w1.sync_ports ppi in
    let checked_state = le1_evt_state_ok env w1 ppi in
    let h1 : Below q =
      if_either n (λ (v : SyncWorld). Below (v.sync_ports ppi)) (start_locking-port w ppi h) h in
    if_case (not q.l1sync_link_alive) (λ (r : SyncWorld × ℤ). IsSafe (r.0.sync_ports ppi))
      (λ e. go_to-IsSafe SyncState.sync_idle w1 ppi (omega arith))
      (λ link.
        if_case (not (le1_evt_config_ok q)) (λ (r : SyncWorld × ℤ). IsSafe (r.0.sync_ports ppi))
          (λ e. go_to-IsSafe SyncState.sync_link_alive w1 ppi (omega arith))
          (λ config.
            if_case checked_state.1 (λ (r : SyncWorld × ℤ). IsSafe (r.0.sync_ports ppi))
              (λ ok. go_up-IsSafe checked_state.0 ppi (
                up-IsSafe env w1 ppi (was_true q.l1sync_link_alive link)
                  (was_true (le1_evt_config_ok q) config) ok))
              (λ no.
                inl (iterate-port Below env checked_state.0 ppi (state_ok-Below env w1 ppi h1)))))

-- What makes the port stay in UP.
stays_up :
    (link config state : Bool)
    → leave_up_for link config state ≡ none
    → (link ≡ true) × (config ≡ true) × (state ≡ true)
unfolding leave_up_for
stays_up true true true h = (refl, refl, refl)
stays_up link config false h = cc
stays_up link false true h = cc
stays_up false true true h = cc

leaves_below :
    (link config state : Bool) (s : SyncState)
    → leave_up_for link config state ≡ some s
    → sync_value s < 5
unfolding leave_up_for
leaves_below link config false s h = ground arith
leaves_below link false true s h = ground arith
leaves_below false true true s h = ground arith
leaves_below true true true s h = cc

up_or_leave-IsSafe :
    (env : SyncEnv) (w : SyncWorld) (ppi : ℕ) (n : Bool) (left : Option SyncState)
    → (left ≡ none → UpOk (w.sync_ports ppi))
    → ((s : SyncState) → left ≡ some s → sync_value s < 5)
    → IsSafe ((up_or_leave env w ppi n left).0.sync_ports ppi)
unfolding up_or_leave
up_or_leave-IsSafe env w ppi n none stay leave =
    let w1 = if n then with_extension env w ppi else w in
    inr (
      iterate-port UpOk env w1 ppi
        (if_either n (λ (v : SyncWorld). UpOk (v.sync_ports ppi)) (stay refl) (stay refl)))
up_or_leave-IsSafe env w ppi n (some s) stay leave =
    let there = go_to-IsSafe s w ppi (leave s refl) in
    if_either (is_slave_side (set_sync_next w ppi s) ppi)
      (λ (v : SyncWorld). IsSafe (v.sync_ports ppi)) there there

pub handle_up-IsSafe :
    (env : SyncEnv) (w : SyncWorld) (ppi : ℕ) (n : Bool)
    → IsSafe ((l1e_handle_state_up env w ppi n).0.sync_ports ppi)
unfolding l1e_handle_state_up
handle_up-IsSafe env w ppi n =
    let w1 = if n then start_up w ppi else w in
    let q = w1.sync_ports ppi in
    let w2 = if q.l1sync_link_alive then w1 else without_extension env w1 ppi in
    let same : w2.sync_ports ≡ w1.sync_ports =
      if_either q.l1sync_link_alive (λ (v : SyncWorld). v.sync_ports ≡ w1.sync_ports) refl refl in
    let r = le1_evt_state_ok env w2 ppi in
    up_or_leave-IsSafe env r.0 ppi n (leave_up_for q.l1sync_link_alive (le1_evt_config_ok q) r.1)
      (λ none_left.
        let all = stays_up q.l1sync_link_alive (le1_evt_config_ok q) r.1 none_left in
        up-IsSafe env w2 ppi (ap (λ (f : ℕ → SyncPort). (f ppi).l1sync_link_alive) same ∙ all.0)
          (ap (λ (f : ℕ → SyncPort). le1_evt_config_ok (f ppi)) same ∙ all.1) all.2)
      (leaves_below q.l1sync_link_alive (le1_evt_config_ok q) r.1)
