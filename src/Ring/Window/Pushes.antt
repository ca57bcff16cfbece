-- ===== src/Ring/Window/Pushes.antt =====
-- `RingBuffer::Push` (src/ring_buffer.cpp) on unlocked entries, and any number of pushes.
use mathlib.Core.List.{append-nil}
use qds_data_interface.Prelude.{
  ℕ, suc, ◌-◌, ◌<◌, Option, none, some, List, [], ◌∷◌, ◌++◌, map, ◌≡◌, refl, sym, ◌∙◌, ap, subst,
  arith, length, length-drop, drop, All, All-imp, All-Sublist,
}
use qds_data_interface.Prelude.Int.{ℤ, pos}
use qds_data_interface.Exception.{ok}
use qds_data_interface.Measurement.{Measurement}
use qds_data_interface.Types.{BufferEntry}
use qds_data_interface.Ring.{
  OnDeleteCallback, RingBuffer, World, is_mode_0, push_back, insert, push, discarded, after_discard,
}
use qds_data_interface.Ring.Discard.{discard_first}
use qds_data_interface.Ring.Valid.{Lacks, replace-none}
use qds_data_interface.Ring.Push.{insert_cases, push_cases, discarded_lem, kept-Sublist}
use qds_data_interface.Ring.Stored.{stored}
use qds_data_interface.Ring.Progress.{below-last_id_ge}
use qds_data_interface.Ring.Window.{
  DataSet, content, recent, MayFollow, Accepts, without_unlocked-drop, next_follows,
  shifted_contents, length-contents, recent_all, recent-drop, Accepts-shifted,
}

-- What a push to unlocked entries leaves: one of them less if the buffer is full, and a new one.
abbrev pub Shifted : (ℕ → ℕ) → DataSet → RingBuffer → RingBuffer → Type 0
Shifted time d r r' =
    (n : ℕ) × (r' ≡ record r {
      buffer = drop (suc (length r.buffer) - r.max_size) r.buffer ++ stored time d.0 d.1 n ∷ [];
    })

-- The window moves on by one data set.
pub Shifted-recent :
    (time : ℕ → ℕ) (d : DataSet) (ds : List DataSet) (r r' : RingBuffer)
    → Accepts (d ∷ ds) r
    → Shifted time d r r'
    → Accepts ds r'
      × (recent r'.max_size (map content r'.buffer ++ ds)
          ≡ recent r.max_size (map content r.buffer ++ d ∷ ds))
Shifted-recent time d ds r r' a (n, e) = (
  subst (Accepts ds) (sym e) (Accepts-shifted d ds r (stored time d.0 d.1 n) refl refl a),
  ap (λ q. recent q.max_size (map content q.buffer ++ ds)) e
      ∙ (ap (recent r.max_size) (
            shifted_contents (suc (length r.buffer) - r.max_size) r.buffer (stored time d.0 d.1 n)
              ds (omega (arith, a.positive)))
          ∙ recent-drop r.max_size (suc (length r.buffer) - r.max_size) _
              (omega (arith, length-contents r.buffer (d ∷ ds)))),
)

-- Where no more follows, a window holds all.
pub none-recent :
    (r : RingBuffer)
    → Accepts [] r
    → map content r.buffer ≡ recent r.max_size (map content r.buffer ++ [])
none-recent r a = sym (
    recent_all r.max_size _ (omega (arith, length-contents r.buffer [], a.bounded))
    ∙ append-nil (map content r.buffer))

module _ {S : Type 0} (time : ℕ → ℕ) (callback : Option (OnDeleteCallback S)) where
  -- A new id is appended.
  insert_new :
      (id : ℤ) (ms : List Measurement) (n : ℕ) (w : World S)
      → All (λ e. MayFollow (is_mode_0 w.ring) (content e) (id, ms)) w.ring.buffer
      → insert time callback id ms n w ≡ (ok (pos n), push_back time id ms w)
  insert_new id ms n w f =
      insert_cases time callback (λ r. r ≡ (ok (pos n), push_back time id ms w)) id ms n w
        (λ m g.
          cc (g, below-last_id_ge id w.ring.buffer (All-imp _ _ (λ e h. h.1 m) w.ring.buffer f)))
        (λ m g. refl) (λ m e. cc (e, replace-none time callback id w.ring.buffer w.owner lacks))
        (λ m es s e.
          ap (λ o. (ok (pos n), push_back time id ms (replaced o)))
            (sym e ∙ replace-none time callback id w.ring.buffer w.owner lacks))
    where
      replaced : Option (List BufferEntry × S) → World S
      replaced none = w
      replaced (some (es, s)) = record w { ring = record w.ring { buffer = es }; owner = s }

      lacks : Lacks id w.ring.buffer
      lacks = All-imp _ _ (λ e h. h.0) w.ring.buffer f

  pub push-Shifted :
      (d : DataSet) (ds : List DataSet) (w : World S)
      → Accepts (d ∷ ds) w.ring
      → Shifted time d w.ring (push time callback d.0 d.1 w).1.ring
  unfolding push_back
  push-Shifted (id, ms) ds w a =
      push_cases time callback (λ r. Shifted time (id, ms) w.ring r.1.ring) id ms w
        (λ f o. cc (a.allowed, o))
        (λ f o k. absurd (
          omega
            (arith, k, f, ap length kept, length-drop excess w.ring.buffer, a.bounded, a.positive)))
        (λ f o k. (
          (discarded time callback w).readings,
          ap (λ r. r.1.ring)
                (insert_new id ms (discarded time callback w).deletions
                  (after_discard time callback w)
                  (All-Sublist _ (kept-Sublist time callback w) follows))
              ∙ ap (λ es. shifted (discarded time callback w).readings es) kept,
        ))
        (λ k. (
          w.readings,
          ap (λ r. r.1.ring) (insert_new id ms 0 w follows)
              ∙ ap (λ j. shifted w.readings (drop j w.ring.buffer)) (none_over k),
        ))
    where
      follows : All (λ e. MayFollow (is_mode_0 w.ring) (content e) (id, ms)) w.ring.buffer
      follows = next_follows _ w.ring.buffer (id, ms) ds a.follows

      excess : ℕ
      excess = suc (length w.ring.buffer) - w.ring.max_size

      kept : (discarded time callback w).kept ≡ drop excess w.ring.buffer
      kept =
          rw discarded_lem
            (unfold discard_first in without_unlocked-drop excess w.ring.buffer a.unlocked)

      shifted : ℕ → List BufferEntry → RingBuffer
      shifted n es = record w.ring { buffer = es ++ stored time id ms n ∷ [] }

      none_over : length w.ring.buffer < w.ring.max_size → 0 ≡ excess
      none_over k = omega (arith, k)

  -- The pushes of these data sets, one after the other.
  abbrev pub pushes : List DataSet → World S → World S
  pushes [] w = w
  pushes (d ∷ ds) w = pushes ds (push time callback d.0 d.1 w).1

  -- A buffer that may overflow and in which nothing is locked holds, after the pushes of any number
  -- of data sets with fresh ids (in counter mode 0 greater and greater ones), the last ones of what
  -- it held and what was pushed, in this order, as many as its size allows.
  pub pushes-recent :
      (ds : List DataSet) (w : World S)
      → Accepts ds w.ring
      → map content (pushes ds w).ring.buffer
        ≡ recent w.ring.max_size (map content w.ring.buffer ++ ds)
  pushes-recent [] w a = none-recent w.ring a
  pushes-recent (d ∷ ds) w a =
      let (b, e) = Shifted-recent time d ds w.ring _ a (push-Shifted d ds w a) in
      pushes-recent ds (push time callback d.0 d.1 w).1 b ∙ e
