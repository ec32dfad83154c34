-- ===== src/EtherFabric/Tuned.antt =====
-- A send on the tuned path, from the caller's frame to what the adapter is given.
use Prim.Native.Nat.{bit_and}
use abtrda.Prelude.{
  ℕ, ◌+◌, ◌-◌, ◌*◌, ◌%◌, ◌^◌, ◌≤◌, ◌<◌, ◌≡◌, refl, sym, ap, ◌∙◌, subst, true, Option, some, List,
  ◌++◌, arith, length, set, get_or, u32,
}
use abtrda.Bytes.{le_bytes, overlay, slice, memcpy}
use abtrda.Bytes.Laws.{length-overlay, slice-overlay_self}
use abtrda.EtherFabric.Events.{EfEvent}
use abtrda.EtherFabric.Ctpio.{ctpio_header, tx_lines, aperture_image, tx_descriptor}
use abtrda.EtherFabric.Image.{aperture_image-frame}
use abtrda.EtherFabric.Send.{
  EfPort, EfSender, Answer, tx_slot_offset, take_tx_slot, ef_acquire, commit_x2522, ef_commit,
  send_acquired, ef_send,
}

memcpy-some :
    (at : ℕ) (bs mem : List ℕ)
    → at + length bs ≤ length mem
    → memcpy at bs mem ≡ some (overlay at bs mem)
unfolding memcpy
memcpy-some at bs mem h = ground (arith, h)

-- On the tuned path, for a frame shorter than 4096 bytes whose lines lie within the buffers: a send
-- always succeeds. It takes the slots in turn; the adapter is given, in whole lines, the header
-- word, then the caller's frame byte for byte, then fewer than 64 bytes of the slot; and the
-- descriptor that goes to the ring and is pushed with it has the base of the same slot and the
-- length of the same frame.
pub ef_send-x2522 :
    (p : EfPort) (polled : Option (List EfEvent)) (turns : List (Answer × Option (List EfEvent)))
    (frame mem : List ℕ) (s : EfSender)
    → p.config.x2522 ≡ true
    → p.ct_threshold < 2 ^ 12
    → length frame < 2 ^ 12
    → let slot = s.tx_head % p.config.nb_tx_bufs in
      tx_slot_offset p slot + tx_lines (length frame) * 64 ≤ length mem
      → (m : List ℕ) × (t : EfSender) × (pad : List ℕ) × (ef_send p polled turns frame (mem, s)
          ≡ some (true, (m, t)))
        × (t.aperture ≡ le_bytes 4 (ctpio_header p.ct_threshold (length frame)) ++ (frame ++ pad))
        × (t.tx_slot ≡ slot)
        × (t.tx_head ≡ u32 (s.tx_head + 1))
        × (t.pushed
            ≡ some (
              tx_descriptor (get_or p.tx_desc_base slot 0) (length frame),
              bit_and (u32 (s.txq_added + 1)) p.txq_mask,
            ))
        × (t.txq_descriptors
            ≡ set s.txq_descriptors
                (bit_and s.txq_added p.txq_mask)
                (tx_descriptor (get_or p.tx_desc_base slot 0) (length frame)))
unfolding ef_send ef_acquire send_acquired take_tx_slot ef_commit commit_x2522
ef_send-x2522 p polled turns frame mem s tuned ct len fits =
    let n = length frame in
    let base = tx_slot_offset p (s.tx_head % p.config.nb_tx_bufs) in
    let m = overlay (base + 4) frame mem in
    let word : u32 n ≡ n = omega arith in
    let inside : base + tx_lines n * 64 ≤ length m =
      subst (λ k. base + tx_lines n * 64 ≤ k) (sym (length-overlay (base + 4) frame mem)) fits in
    let img = aperture_image-frame p.ct_threshold base n m ct len inside in
    let room : base + 4 + length frame ≤ length mem = omega (arith, img.1, fits) in
    let copied : slice (base + 4) n m ≡ frame = slice-overlay_self (base + 4) frame mem room in
    let pad = slice (base + 4 + n) (tx_lines n * 64 - (4 + n)) m in
    let image : aperture_image p.ct_threshold base n m
        ≡ some (le_bytes 4 (ctpio_header p.ct_threshold n) ++ (frame ++ pad)) =
      img.0 ∙ ap (λ bs. some (le_bytes 4 (ctpio_header p.ct_threshold n) ++ (bs ++ pad))) copied in
    let di = bit_and s.txq_added p.txq_mask in
    let slot = s.tx_head % p.config.nb_tx_bufs in
    let desc = tx_descriptor (get_or p.tx_desc_base slot 0) n in
    let t = record s {
      tx_slot = slot;
      tx_len = n;
      tx_slot_base = base;
      tx_ptr = base + 4;
      aperture = le_bytes 4 (ctpio_header p.ct_threshold n) ++ (frame ++ pad);
      txq_descriptors = set s.txq_descriptors di desc;
      txq_ids = set s.txq_ids di slot;
      txq_added = u32 (s.txq_added + 1);
      pushed = some (desc, bit_and (u32 (s.txq_added + 1)) p.txq_mask);
      tx_head = u32 (s.tx_head + 1);
    } in
    (
      m,
      t,
      pad,
      rw (tuned, word, memcpy-some (base + 4) frame mem room, image) refl,
      refl,
      refl,
      refl,
      refl,
      refl,
    )
