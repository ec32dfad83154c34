-- ===== src/AfXdp/Setup/Tests.antt =====
-- A socket object set up on a host without zero-copy, moved and shut down.
use abtrda.Action.{◌>>=◌}
use abtrda.Prelude.{ℕ, ◌+◌, ◌≡◌, refl, Bool, true, false, none, some, [], ◌∷◌}
use abtrda.AfXdp.Setup.{
  xsk_rx_only, xsk_has_rx, xsk_has_tx, zero_copied, native_copy, socket, XskCall, create_socket,
  reserve_fill, XskEnv, new_xsk, XskPair, with_this, this_of, turned_round,
}
use abtrda.AfXdp.Setup.Life.{init_xsk, move_assign}
use abtrda.AfXdp.Setup.Balance.{bit, obtained, returned}
use abtrda.AfXdp.Setup.Reach.{starts, inits, moves, turns, XskReach-balanced}

abbrev accepts : XskCall → Bool
accepts (create_socket ifname queue rx tx zero_copied wakeup inhibit) = false
accepts c = true

abbrev count_of : XskCall → ℕ
count_of (reserve_fill n) = n
count_of c = 7

abbrev copying : XskEnv
copying = record {
  ok = λ c cs. accepts c;
  num = λ c cs. count_of c;
  modes = λ fd cs. record {
    valid = false;
    zero_copy = false;
    xdp_options_flags = 0;
    busy_poll_us = none;
    prefer_busy_poll = none;
  };
}

abbrev fresh_pair : XskPair
fresh_pair = record {
  this_xsk = new_xsk "eth1" 0 "prog.o";
  that_xsk = new_xsk "eth1" 0 "prog.o";
  made = [];
}

abbrev up_pair : XskPair
up_pair =
    with_this fresh_pair
      (init_xsk copying xsk_rx_only 8 8 4096 true true false (this_of fresh_pair)).1

up_pair-found :
    (init_xsk copying xsk_rx_only 8 8 4096 true true false (this_of fresh_pair)).0 ≡ some true
unfolding init_xsk ◌>>=◌ xsk_has_rx xsk_has_tx
up_pair-found = refl

-- The ladder fell to its second rung, and the receive frames are on the fill ring.
up_pair-mode : up_pair.this_xsk.bind_mode ≡ native_copy
unfolding init_xsk ◌>>=◌ xsk_has_rx xsk_has_tx
up_pair-mode = refl

up_pair-fill : up_pair.this_xsk.fill ≡ 0 ∷ 4096 ∷ 8192 ∷ 12288 ∷ 16384 ∷ 20480 ∷ 24576 ∷ 28672 ∷ []
unfolding init_xsk ◌>>=◌ xsk_has_rx xsk_has_tx
up_pair-fill = refl

abbrev moved_pair : XskPair
moved_pair = move_assign copying xsk_rx_only 8 8 4096 true (turned_round up_pair)

XskReach-balanced_example :
    obtained copying socket moved_pair.made
    ≡ returned socket moved_pair.made
      + (bit (moved_pair.this_xsk.holds socket) + bit (moved_pair.that_xsk.holds socket))
XskReach-balanced_example =
    XskReach-balanced copying xsk_rx_only 8 8 4096 true moved_pair
      (moves (
        turns (
          inits true false true (starts "eth1" "prog.o" "eth1" "prog.o" 0 0) (λ r. refl)
            up_pair-found)))
      socket
