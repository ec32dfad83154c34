-- ===== src/AfXdp/Setup/Life.antt =====
-- AFXDP::init and shutdown for a mode, frame counts and a frame size.
use abtrda.Action.{Action, ◌>>=◌, ◌>>◌, pure, fail, guard, when}
use abtrda.Prelude.{
  ℕ, ◌+◌, ◌*◌, Bool, true, false, not, ◌&&◌, List, [], ◌∷◌, ◌++◌, ltb, ◌==◌, if◌then◌else◌, Option,
  none, some,
}
use abtrda.Strings.{is_empty}
use abtrda.AfXdp.{populate_fill}
use abtrda.AfXdp.Setup.{
  XskMode, xsk_has_rx, xsk_has_tx, BindMode, zero_copied, native_copy, generic, is_copy, frames,
  umem, socket, program, same, raise_memlock, name_to_index, strip_program, detach_program,
  close_program, map_frames, unmap_frames, create_umem, delete_umem, reserve_fill, create_socket,
  delete_socket, socket_fd, strip_native, strip_generic, XskEnv, Sys, set_xsk, get_xsk, set_regime,
  ask_count, tell_xsk, acquire, give_back, apply_deferral_sysfs, steer_all_traffic,
  load_xdp_program, apply_set_sock_opt, enter_xsks_into_map, verify_config, XskPair, this_of,
  moved_xsk,
}

module _ (env : XskEnv) (mode : XskMode) (num_rx num_tx frame_size : ℕ) (need_wakeup : Bool) where
  abbrev pub tx_pool : ℕ
  tx_pool = if xsk_has_tx mode then num_tx else 0

  abbrev pub rx_pool : ℕ
  rx_pool = if xsk_has_rx mode then num_rx else 0

  unfoldable pub configure_umem : Action Sys (Unit {0})
  unfolding same
  configure_umem = do
    mapped ← acquire env frames (map_frames ((tx_pool + rx_pool) * frame_size))
    guard mapped
    created ←
        acquire env umem
          (create_umem ((tx_pool + rx_pool) * frame_size) (2 * num_rx) num_tx frame_size)
    guard created

  abbrev pub put_fill : Option (List ℕ) → Action Sys (Unit {0})
  put_fill none = fail
  put_fill (some addrs) = set_xsk (λ n. record n { fill = n.fill ++ addrs })

  unfoldable pub populate_fill_ring : Action Sys (Unit {0})
  unfolding populate_fill
  populate_fill_ring = do
    got ← ask_count env (reserve_fill rx_pool)
    put_fill (populate_fill tx_pool rx_pool frame_size got)

  -- The rungs that are left: the first that the kernel accepts counts.
  unfoldable pub climb : List BindMode → Action Sys (Unit {0})
  unfolding same
  climb [] = pure tt
  climb (m ∷ ms) = do
    n ← get_xsk (λ n. n)
    accepted ← acquire env socket (
        create_socket n.interface n.queue_id (xsk_has_rx mode) (xsk_has_tx mode) m need_wakeup
          n.custom_bpf)
    let rest = climb ms
    if accepted then set_xsk (λ n. record n { bind_mode = m; copy_mode = is_copy m }) else rest

  unfoldable pub configure_socket : Action Sys (Unit {0})
  unfolding climb
  configure_socket = do
    set_xsk (λ n. record n { bind_mode = generic })
    climb (zero_copied ∷ native_copy ∷ generic ∷ [])
    bound ← get_xsk (λ n. n.holds socket)
    guard bound
    fd ← ask_count env socket_fd
    set_xsk (λ n. record n { fd = some fd })

  unfoldable pub enter_map : Action Sys (Unit {0})
  unfolding enter_xsks_into_map
  enter_map = do
    n ← get_xsk (λ n. n)
    when (n.custom_bpf && n.holds program) (enter_xsks_into_map env)

  unfoldable pub load_program : Action Sys (Unit {0})
  unfolding load_xdp_program
  load_program = do
    n ← get_xsk (λ n. n)
    when (not (is_empty n.bpf_prog_path)) (load_xdp_program env)

  unfoldable pub init_found : Action Sys Bool
  unfolding apply_deferral_sysfs steer_all_traffic load_program configure_umem populate_fill_ring
      configure_socket apply_set_sock_opt enter_map verify_config
  init_found = do
    n ← get_xsk (λ n. n)
    tell_xsk env (strip_program n.interface)
    apply_deferral_sysfs env
    when (xsk_has_rx mode) (steer_all_traffic env)
    when (xsk_has_rx mode) load_program
    configure_umem
    when (xsk_has_rx mode) populate_fill_ring
    configure_socket
    apply_set_sock_opt env
    when (xsk_has_rx mode) enter_map
    verify_config env
    pure true

  -- It fails when the process aborts; the result says whether the interface exists.
  unfoldable pub init_xsk : Bool → Bool → Action Sys Bool
  unfolding set_regime init_found
  init_xsk enable_deferral enable_irq_suspend = do
    set_xsk (set_regime enable_deferral enable_irq_suspend)
    tell_xsk env raise_memlock
    n ← get_xsk (λ n. n)
    index ← ask_count env (name_to_index n.interface)
    set_xsk (λ n. record n { ifindex = index })
    if index == 0 then pure false else init_found

  unfoldable pub drop_socket : Action Sys (Unit {0})
  unfolding same
  drop_socket = give_back env socket delete_socket >> set_xsk (λ n. record n { fd = none })

  unfoldable pub drop_program : ℕ → Action Sys (Unit {0})
  unfolding same
  drop_program index = tell_xsk env (detach_program index) >> give_back env program close_program

  unfoldable pub strip_interface : ℕ → Action Sys (Unit {0})
  strip_interface index = do
    tell_xsk env (strip_native index)
    tell_xsk env (strip_generic index)
    set_xsk (λ n. record n { ifindex = 0 })

  unfoldable pub shutdown_xsk : Action Sys (Unit {0})
  unfolding same drop_socket drop_program strip_interface
  shutdown_xsk = do
    n ← get_xsk (λ n. n)
    when (n.holds socket) drop_socket
    when (n.holds umem) (give_back env umem delete_umem)
    when (n.holds frames) (give_back env frames (unmap_frames ((tx_pool + rx_pool) * frame_size)))
    when (n.holds program) (drop_program n.ifindex)
    when (ltb 0 n.ifindex) (strip_interface n.ifindex)

  -- The move assignment of that object to this one.
  unfoldable pub move_assign : XskPair → XskPair
  unfolding shutdown_xsk moved_xsk
  move_assign p = record {
    this_xsk = p.that_xsk;
    that_xsk = moved_xsk p.that_xsk;
    made = (shutdown_xsk (this_of p)).1.calls;
  }
