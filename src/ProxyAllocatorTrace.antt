-- ===== src/ProxyAllocatorTrace.antt =====
-- ProxyAllocatorTrace.cpp: the ring of trace records: `Initialize`, `Emit`, `Mark`, `SpanBegin`,
-- `SpanEnd`, `CopySnapshot`. A call is one step, the writes of a record included. The clock, the
-- thread and the caller's address are in the record that a call passes.
pub mod Ring
use ts3vasmanager.Prelude.{
  ℕ, min, Bool, true, false, Option, none, some, List, set, replicate, add32, add64, ◌+◌, ◌-◌, ◌*◌,
  ◌%◌, ◌^◌,
}

-- What a call gives to a record: everything but its sequence number.
pub record Mark : Type 0 where
  pub qpc : ℕ
  pub tid : ℕ
  pub code : ℕ
  pub handle : ℕ
  pub a : ℕ
  pub b : ℕ
  pub err : ℕ
  pub ctx : ℕ
  pub depth : ℕ
  pub rip : ℕ

pub record TraceRec : Type 0 where
  pub mark : Mark
  pub span_id : ℕ
  pub seq : ℕ

-- The static members; the buffer is `none` before it is reserved. The index and the span counter are
-- the bits of signed 32-bit numbers.
pub record Trace : Type 0 where
  pub buf : Option (List TraceRec)
  pub cap : ℕ
  pub write_idx : ℕ
  pub trace_seq : ℕ
  pub span_id_gen : ℕ

abbrev pub trace_capacity : ℕ
trace_capacity = 8192

abbrev pub no_mark : ℕ → Mark
no_mark now = record {
  qpc = now;
  tid = 0;
  code = 0;
  handle = 0;
  a = 0;
  b = 0;
  err = 0;
  ctx = 0;
  depth = 0;
  rip = 0;
}

abbrev pub empty_rec : ℕ → TraceRec
empty_rec now = record { mark = no_mark now; span_id = 0; seq = 0 }

-- `Initialize`, with whether the reservation succeeds, and the clock.
unfoldable pub initialize_trace_with : Bool → ℕ → Option (List TraceRec) → Trace → Trace
initialize_trace_with reserved now (some records) t = t
initialize_trace_with false now none t = record t { cap = trace_capacity }
initialize_trace_with true now none t = record t {
  buf = some (replicate trace_capacity (empty_rec now));
  cap = trace_capacity;
  write_idx = 2 ^ 32 - 1;
  trace_seq = 0;
}

unfoldable pub initialize_trace : Bool → ℕ → Trace → Trace
initialize_trace reserved now t = initialize_trace_with reserved now t.buf t

-- `Emit`
unfoldable pub emit_with : ℕ → Mark → Option (List TraceRec) → Trace → Trace
emit_with span_id m none t = t
emit_with span_id m (some records) t =
    let idx = add32 t.write_idx 1 in
    let seq = add64 t.trace_seq 1 in
    record t {
      buf = some (set records (idx % t.cap) (record { mark = m; span_id = span_id; seq = seq }));
      write_idx = idx;
      trace_seq = seq;
    }

unfoldable pub emit : ℕ → Mark → Trace → Trace
emit span_id m t = emit_with span_id m t.buf t

-- `Mark`
unfoldable pub mark_trace : Mark → Trace → Trace
mark_trace m t = emit 0 m t

-- `SpanBegin`: the id of the span. The record's depth is one more than the thread's, as a byte.
unfoldable pub span_begin : Mark → Trace → ℕ × Trace
span_begin m t =
    let id = add32 t.span_id_gen 1 in
    (
      id,
      emit id (record m { err = 0; depth = (m.depth + 1) % 2 ^ 8 }) (record t { span_id_gen = id }),
    )

-- `SpanEnd`
unfoldable pub span_end : ℕ → Mark → Trace → Trace
span_end span_id m t = emit span_id m t

-- The number of bytes that `CopySnapshot` copies, of records of this size.
unfoldable pub snapshot_bytes : ℕ → ℕ → Trace → ℕ
snapshot_bytes record_size bytes t = elim t.buf [
  | none ↦ 0
  | some records ↦ min bytes (t.cap * record_size)
]
