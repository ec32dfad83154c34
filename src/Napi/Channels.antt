-- ===== src/Napi/Channels.antt =====
-- The single receive queue of src/backends/common/NapiConfig.hpp (ensureCombinedOne) over a device whose
-- channels are read and set, and the modes granted to a socket (readXskModes).
use Prim.Native.Nat.{bit_and}
use abtrda.Prelude.{
  ℕ, ◌≡◌, sym, subst, inl, inr, Bool, true, false, not, Option, none, some, arith, ◌==◌,
  if◌then◌else◌, Bool-cases,
}

pub record EthtoolChannels : Type 0 where
  pub max_combined : ℕ
  pub combined_count : ℕ

-- The two calls; one that fails gives `none`, and what setting answers is not looked at.
pub record Ethtool (D : Type 0) : Type 0 where
  pub get_channels : D → Option EthtoolChannels × D
  pub set_channels : EthtoolChannels → D → D

pub data CombinedResult : Type 0 where
  already_one : CombinedResult
  changed : CombinedResult
  no_channels : CombinedResult
  failed : CombinedResult

unfoldable pub read_back : Option EthtoolChannels → CombinedResult
read_back none = failed
read_back (some rb) = if rb.combined_count == 1 then changed else failed

module _ {D : Type 0} (dev : Ethtool D) where
  unfoldable pub set_one : EthtoolChannels → D → CombinedResult × D
  unfolding read_back
  set_one ch d =
      let (rb, e) = dev.get_channels (dev.set_channels (record ch { combined_count = 1 }) d) in
      (read_back rb, e)

  unfoldable pub steer : Option EthtoolChannels × D → CombinedResult × D
  unfolding set_one
  steer (none, d) = (no_channels, d)
  steer (some ch, d) =
      let once = set_one ch d in
      if ch.max_combined == 0
      then (no_channels, d)
      else (if ch.combined_count == 1 then (already_one, d) else once)

  -- `opened` says whether the socket was.
  unfoldable pub ensure_combined_one : Bool → D → CombinedResult × D
  unfolding steer
  ensure_combined_one opened d =
      let done = steer (dev.get_channels d) in if opened then done else (failed, d)

pub record XskModes : Type 0 where
  pub valid : Bool
  pub zero_copy : Bool
  pub xdp_options_flags : ℕ
  pub busy_poll_us : Option ℕ
  pub prefer_busy_poll : Option ℕ

-- The three options as the kernel answers them; one that is not answered keeps its default, -1 for the
-- two numbers, which is `none` here.
unfoldable pub read_xsk_modes : Option ℕ → Option ℕ → Option ℕ → XskModes
read_xsk_modes none busy prefer = record {
  valid = false;
  zero_copy = false;
  xdp_options_flags = 0;
  busy_poll_us = busy;
  prefer_busy_poll = prefer;
}
read_xsk_modes (some flags) busy prefer = record {
  valid = true;
  zero_copy = not (bit_and flags 1 == 0);
  xdp_options_flags = flags;
  busy_poll_us = busy;
  prefer_busy_poll = prefer;
}

-- A device that answers as it did when nothing was set in between.
pub record Steady {D : Type 0} (dev : Ethtool D) : Type 0 where
  pub get_again : (d : D) → (dev.get_channels (dev.get_channels d).1).0 ≡ (dev.get_channels d).0

abbrev HasOne : Option EthtoolChannels → Type 0
HasOne none = ⊥
HasOne (some ch) = ch.combined_count ≡ 1

-- What a result says of the channels that the device has then.
abbrev Says : CombinedResult → Option EthtoolChannels → Type 0
Says already_one now = HasOne now
Says changed now = HasOne now
Says no_channels now = Unit {0}
Says failed now = Unit {0}

module _ {D : Type 0} (dev : Ethtool D) (steady : Steady dev) where
  read_back-Says : (rb : Option EthtoolChannels) → Says (read_back rb) rb
  unfolding read_back
  read_back-Says none = tt
  read_back-Says (some rb) = elim (Bool-cases (rb.combined_count == 1)) [
    | inl e ↦ rw e (ground (arith, e))
    | inr e ↦ rw e tt
  ]

  set_one-Says :
      (ch : EthtoolChannels) (d : D) → let r = set_one dev ch d in Says r.0 (dev.get_channels r.1).0
  unfolding set_one
  set_one-Says ch d =
      let e = dev.set_channels (record ch { combined_count = 1 }) d in
      subst (Says (read_back (dev.get_channels e).0)) (sym (steady.get_again e))
        (read_back-Says (dev.get_channels e).0)

  steer-Says :
      (found : Option EthtoolChannels) (d : D)
      → (dev.get_channels d).0 ≡ found
      → let r = steer dev (found, d) in Says r.0 (dev.get_channels r.1).0
  unfolding steer
  steer-Says none d e = tt
  steer-Says (some ch) d e = elim (Bool-cases (ch.max_combined == 0)) [
    | inl a ↦ rw a tt
    | inr a ↦ elim (Bool-cases (ch.combined_count == 1)) [
      | inl b ↦
          let one : ch.combined_count ≡ 1 = ground (arith, b) in
          rw (a, b) (subst HasOne (sym e) one)
      | inr b ↦ rw (a, b) (set_one-Says ch d)
    ]
  ]

  -- On such a device: when ensureCombinedOne answers AlreadyOne or Changed, the device then has one
  -- channel.
  ensure_combined_one-Says :
      (opened : Bool) (d : D)
      → let r = ensure_combined_one dev opened d in Says r.0 (dev.get_channels r.1).0
  unfolding ensure_combined_one
  ensure_combined_one-Says false d = tt
  ensure_combined_one-Says true d = steer-Says (dev.get_channels d).0 _ (steady.get_again d)
