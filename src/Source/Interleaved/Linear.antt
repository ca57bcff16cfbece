-- ===== src/Source/Interleaved/Linear.antt =====
-- The buffer of a data source whose calls are under way at once, src/data_source_internal.cpp and
-- src/ring_buffer.cpp: it is that of calls of the ring buffer's methods one after the other.
use qds_data_interface.Prelude.{ℕ, some, [], refl, sym, subst}
use qds_data_interface.Ring.{OnDeleteCallback, World, lock}
use qds_data_interface.Ring.Run
use qds_data_interface.Ring.Replay.{
  record_call, with_owner, push-natural, delete-natural, reset-natural,
}
use qds_data_interface.Source.{ReferenceContainer, FileSystem, Config}
use qds_data_interface.Source.Operations.{lock_data, acknowledge_overflow, acknowledge_reset}
use qds_data_interface.Source.Interleaved.{
  System, Step, advanced, push_entered, delete_entered, reset_entered, acted, left, referenced,
  overflow_acknowledged, reset_acknowledged, locked, Reach, here, next,
}
use qds_data_interface.Source.Interleaved.Stored.{
  buffer_of, Advance-buffer_of, set_reference-buffer_of,
}

-- A callback that does nothing.
abbrev pub ignore : OnDeleteCallback Unit
ignore o clear t s = s

module _ {C F : Type 0} (refs : ReferenceContainer C) (fs : FileSystem F) (time : ℕ → ℕ)
    (config : Config) where
  abbrev pub BufferRuns : World Unit → World Unit → Type 0
  BufferRuns = Run.Reach time (some ignore)

  Step-BufferRuns :
      (w : World Unit) {u v : System C F}
      → Step refs fs time config u v
      → BufferRuns w (buffer_of u.shared)
      → BufferRuns w (buffer_of v.shared)
  unfolding lock lock_data acknowledge_overflow acknowledge_reset
  Step-BufferRuns w (advanced a) r =
      subst (BufferRuns w) (sym (Advance-buffer_of refs fs time config a)) r
  Step-BufferRuns w {u} (push_entered id ms before after n e) r =
      subst (λ p. BufferRuns w p.1)
        (push-natural time record_call ignore (λ l. tt) (λ o c t s. refl) id ms
          (with_owner [] u.shared.world))
        (Run.next r (Run.pushed id ms))
  Step-BufferRuns w {u} (delete_entered id n) r =
      subst (BufferRuns w)
        (delete-natural time record_call ignore (λ l. tt) (λ o c t s. refl) id
          (with_owner [] u.shared.world))
        (Run.next r (Run.deleted id))
  Step-BufferRuns w {u} (reset_entered reason n) r =
      subst (λ p. BufferRuns w p.1)
        (reset-natural time record_call ignore (λ l. tt) (λ o c t s. refl) reason
          (with_owner [] u.shared.world))
        (Run.next r (Run.emptied reason))
  Step-BufferRuns w (acted a acts call e) r = r
  Step-BufferRuns w (left call before after e t) r = r
  Step-BufferRuns w {u} (referenced n contents format) r =
      subst (BufferRuns w)
        (sym (set_reference-buffer_of refs fs time config n contents format u.shared)) r
  Step-BufferRuns w overflow_acknowledged r = r
  Step-BufferRuns w (reset_acknowledged n) r = r
  Step-BufferRuns w (locked i n) r = Run.next r (Run.locked i)

  -- However the calls under way are interleaved, down to the accesses of the delete callback: from
  -- the buffer before, calls of `Push`, `Delete`, `Reset` and locks of entries, one after the other
  -- and with a callback that does nothing, lead to the buffer after.
  pub Reach-BufferRuns :
      {u v : System C F}
      → Reach refs fs time config u v
      → BufferRuns (buffer_of u.shared) (buffer_of v.shared)
  Reach-BufferRuns here = Run.here
  Reach-BufferRuns {u} (next r s) = Step-BufferRuns (buffer_of u.shared) s (Reach-BufferRuns r)
