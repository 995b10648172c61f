-- ===== src/Writer/Drain.antt =====
-- `writer_thread` after the capture has ended: it empties `q_full` and ends.
use mathlib.Core.Path.{subst}
use mathlib.Core.List.{append-nil, append_assoc}
use bvex_vdif_rfsoc.Base.{
  ℕ, suc, ◌+◌, ◌*◌, ◌^◌, ◌<◌, ◌≡◌, refl, ap, ap₂, sym, ◌∙◌, ◌⊎◌, inl, inr, List, [], ◌∷◌, ◌++◌,
  some, true, false, take, length, block, arith,
}
use bvex_vdif_rfsoc.Telemetry.{RecState}
use bvex_vdif_rfsoc.Spsc.Inv.{IsValid}
use bvex_vdif_rfsoc.Spsc.Refine.{contents}
use bvex_vdif_rfsoc.Capture.{Config, slab_bytes, SlabDesc, Shared}
use bvex_vdif_rfsoc.Capture.Log.{desc_of}
use bvex_vdif_rfsoc.Disk.{Output, FinalCalls}
use bvex_vdif_rfsoc.Files.Seal.{exact}
use bvex_vdif_rfsoc.Writer.{
  Writer, Handled, Round, done, halted, close_file, write_slab, writer_thread,
}
use bvex_vdif_rfsoc.Writer.Steps.{saved}
use bvex_vdif_rfsoc.Base.{nth}
use bvex_vdif_rfsoc.Writer.Refine.{IsRefused, IsWriting, Ends, true≢false}
use bvex_vdif_rfsoc.Writer.Rounds.{write_slab-Ends}
use bvex_vdif_rfsoc.Writer.Turns.{
  close_file-saved, round_handled, round_empty, pop_front, pop_empty,
}
use bvex_vdif_rfsoc.Writer.Queue.{
  bytes_in, padded_in, Tight, Queued, frames_in, drained, drained-Kept, drained-take-Kept, Ready,
  IsQuiet, Rounds,
}

module _ (cfg : Config) (c : Output) (fin : FinalCalls) (ds : List SlabDesc) (size : ℕ) where
  -- The round on slab `k` of the queue found no place for it, with `before` the writer then.
  pub record StoppedAt (is : List ℕ) (rs : List Round) (k : ℕ) (before : Writer) : Type 0 where
    pub slab : ℕ
    pub round : Round
    pub at_start : Writer
    pub nth_slab : nth is k ≡ some slab
    pub nth_round : nth rs k ≡ some round
    pub same : saved at_start ≡ saved before
    pub why : IsRefused c round.calls (desc_of ds slab) at_start

  -- All is saved; or the first `k` slabs are, before the file is closed for the last time, and the
  -- recorder has stopped at the next one.
  pub record Drained (is : List ℕ) (rs : List Round) (w : Writer) (sh : Shared) : Type 0 where
    pub files : Writer
    pub shared : Shared
    pub returns : writer_thread cfg c fin rs w sh ≡ some (files, shared)
    pub outcome :
        (saved files ≡ saved w ++ drained cfg c ds size sh.arena is)
        ⊎ (k : ℕ) × (before : Writer) × (files ≡ close_file c fin shared.tel.gap_frames before)
          × (saved before ≡ saved w ++ drained cfg c ds size sh.arena (take k is))
          × (shared.tel.state ≡ RecState.stopped_disk_full)
          × StoppedAt is rs k before

module _ (cfg : Config) (c : Output) (fin : FinalCalls) (trims : fin.truncated ≡ true)
    (ds : List SlabDesc) (size : ℕ) where
  -- What the induction needs of the state.
  record Draining (is : List ℕ) (w : Writer) (sh : Shared) : Type 0 where
    valid : IsValid sh.q_full
    holds : contents sh.q_full ≡ is
    halted : sh.capture_running ≡ false
    descs : sh.desc ≡ ds
    memory : length sh.arena ≡ size
    writing : IsWriting w
    ready : Ready cfg c ds size w is
    word : w.file.frames + frames_in cfg c ds size is < 2 ^ 64

  drain_last :
      (r : Round) (rs : List Round) (w : Writer) (sh : Shared)
      → Draining [] w sh
      → IsQuiet cfg c ds size r.meanwhile
      → IsQuiet cfg c ds size r.before_load
      → Drained cfg c fin ds size [] (r ∷ rs) w sh
  drain_last r rs w sh k quiet still =
      let (t, e) = quiet sh in
      let (q, pops) = pop_empty sh.q_full k.valid k.holds in
      let (u, l) = still (record sh { tel = t; q_full = q }) in
      record {
        files = close_file c fin u.gap_frames w;
        shared = record sh { q_full = q; tel = u };
        returns =
            round_empty cfg c fin r rs w sh (record sh { tel = t }) e q pops
              (record sh { q_full = q; tel = u }) l k.halted;
        outcome =
            inl
              (close_file-saved c fin u.gap_frames w k.writing trims ∙ sym (append-nil (saved w)));
      }

  tight_of :
      (w : Writer) (i : ℕ) (is : List ℕ)
      → Ready cfg c ds size w (i ∷ is)
      → w.have_file ≡ true
      → w.cur_tag ≡ (desc_of ds i).file_id
      → length w.store.written ≡ exact w.file
  tight_of w i is (inl closed) h e = absurd (true≢false (sym h ∙ closed))
  tight_of w i is (inr (inl other)) h e = absurd (other e)
  tight_of w i is (inr (inr tight)) h e = tight

  -- The slab behind slab `i` finds its file in order.
  Ready-next :
      (w : Writer) (i : ℕ) (is : List ℕ)
      → w.cur_tag ≡ (desc_of ds i).file_id
      → length w.store.written + bytes_in cfg c ds size i ≡ exact w.file + padded_in cfg c ds size i
      → Tight cfg c ds size i is
      → Ready cfg c ds size w is
  Ready-next w i [] tag pad t = tt
  Ready-next w i (j ∷ js) tag pad (inl other) = inr (inl (λ e. other (sym tag ∙ e)))
  Ready-next w i (j ∷ js) tag pad (inr full) = inr (inr (omega (arith, pad, full)))

  -- One slab's bytes in front of those of the rest.
  in_front : (a b x y z : List ℕ) → a ≡ b ++ x → y ≡ z → a ++ y ≡ b ++ (x ++ z)
  in_front a b x y z e f = ap₂ ◌++◌ e f ∙ append_assoc b x z

  drains :
      (is : List ℕ) (rs : List Round) (w : Writer) (sh : Shared)
      → Draining is w sh
      → Queued cfg c ds size is
      → Rounds cfg c ds size rs is
      → Drained cfg c fin ds size is rs w sh
  drains is [] w sh k queued rounds = absurd rounds
  drains [] (r ∷ rs) w sh k queued quiet = drain_last r rs w sh k quiet.0 quiet.1
  drains (i ∷ is) (r ∷ rs) w sh k queued rounds =
      let (t, e) = rounds.0 sh in
      let (q, pops, valid, holds) = pop_front sh.q_full i is k.valid k.holds in
      let sh1 : Shared = record sh { tel = t; q_full = q } in
      let d = desc_of ds i in
      let o = i * slab_bytes cfg in
      let fits = queued.0 in
      let slab = block sh.arena o (bytes_in cfg c ds size i) in
      let same : (x : Handled)
          → write_slab c r.calls i o d w sh1 ≡ x
          → write_slab c r.calls i o (desc_of sh.desc i) w sh1 ≡ x =
        λ x h.
          ap (λ (l : List SlabDesc). write_slab c r.calls i o (desc_of l i) w sh1) k.descs ∙ h in
      let ends : Ends c r.calls i o d w sh1 (write_slab c r.calls i o d w sh1) =
        write_slab-Ends c r.calls i o d sh1 rounds.1 fits.small w k.writing
          (tight_of w i is k.ready) (omega (arith, k.word)) (omega (arith, fits.room, k.memory)) in
      elim ends [
        | inr (g, why) ↦ record {
          files = close_file c fin g.shared.tel.gap_frames g.after;
          shared = g.shared;
          returns =
              round_handled cfg c fin r rs w sh (record sh { tel = t }) e q i
                (halted g.after g.shared) pops (same (halted g.after g.shared) g.returns);
          outcome = inr (
            0,
            g.after,
            refl,
            g.bytes ∙ sym (append-nil (saved w)),
            g.state,
            record {
              slab = i;
              round = r;
              at_start = w;
              nth_slab = refl;
              nth_round = refl;
              same = sym g.bytes;
              why = why;
            },
          );
        }
        | inl g ↦
            let rest : Drained cfg c fin ds size is rs g.after g.shared =
              drains is rs g.after g.shared
                (record {
                  valid = subst IsValid (sym g.kept.full) valid;
                  holds = ap contents g.kept.full ∙ holds;
                  halted = g.kept.running ∙ k.halted;
                  descs = g.kept.descs ∙ k.descs;
                  memory = g.kept.size ∙ k.memory;
                  writing = g.writing;
                  ready = Ready-next g.after i is g.tag g.padding queued.2;
                  word = omega (arith, g.few, k.word);
                })
                queued.3 rounds.2 in
            record {
              files = rest.files;
              shared = rest.shared;
              returns =
                  round_handled cfg c fin r rs w sh (record sh { tel = t }) e q i
                    (done g.after g.shared) pops (same (done g.after g.shared) g.returns)
                  ∙ rest.returns;
              outcome = elim rest.outcome [
                | inl x ↦ inl (
                    x
                    ∙ in_front (saved g.after) (saved w) slab _ _ g.bytes (
                        drained-Kept cfg c ds size i is sh1 g.shared g.kept fits.within queued.1
                          queued.3))
                | inr (n, before, close, x, state, at) ↦ inr (
                  suc n,
                  before,
                  close,
                  x
                      ∙ in_front (saved g.after) (saved w) slab _ _ g.bytes (
                          drained-take-Kept cfg c ds size i n is sh1 g.shared g.kept fits.within
                            queued.1 queued.3),
                  state,
                  record {
                    slab = at.slab;
                    round = at.round;
                    at_start = at.at_start;
                    nth_slab = at.nth_slab;
                    nth_round = at.nth_round;
                    same = at.same;
                    why = at.why;
                  },
                )
              ];
            }
      ]

-- Once the capture has ended, the writer empties the queue and ends, when there is a round for each
-- queued slab and one more in which it finds the queue empty. The queued slabs are different, and lie
-- padded in the arena; a slab that is padded is the last of its file; `ftruncate` succeeds and the
-- writes come to an end; other threads change the telemetry only. Then the frames of all queued slabs
-- are saved, byte for byte and in the order of the queue, after all that was saved before; or those
-- of the first slabs are, up to the last closing of the file, and no place was found for the next.
pub writer_thread-Drained :
    (cfg : Config) (c : Output) (fin : FinalCalls) (rs : List Round) (w : Writer) (sh : Shared)
    → fin.truncated ≡ true
    → IsValid sh.q_full
    → sh.capture_running ≡ false
    → IsWriting w
    → Ready cfg c sh.desc (length sh.arena) w (contents sh.q_full)
    → w.file.frames + frames_in cfg c sh.desc (length sh.arena) (contents sh.q_full) < 2 ^ 64
    → Queued cfg c sh.desc (length sh.arena) (contents sh.q_full)
    → Rounds cfg c sh.desc (length sh.arena) rs (contents sh.q_full)
    → Drained cfg c fin sh.desc (length sh.arena) (contents sh.q_full) rs w sh
writer_thread-Drained cfg c fin rs w sh trims valid ended v ready word queued rounds =
    drains cfg c fin trims sh.desc (length sh.arena) (contents sh.q_full) rs w sh
      (record {
        valid = valid;
        holds = refl;
        halted = ended;
        descs = refl;
        memory = refl;
        writing = v;
        ready = ready;
        word = word;
      })
      queued rounds
