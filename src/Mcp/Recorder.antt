-- ===== src/Mcp/Recorder.antt =====
-- metricsResponseWriter of internal/mcp/server.go: the status that the metrics of a request record. The
-- writer that it wraps is the list of what it is given.
use source_rudder.Prelude.{
  ℕ, ◌≤◌, ◌≡◌, refl, ◌⊎◌, inl, inr, false, not, List, [], ◌∷◌, ◌++◌, arith, ◌==◌, if◌then◌else◌,
  Bool-cases, All, Text,
}

pub record MetricsResponseWriter : Type 0 where
  pub status : ℕ
  -- What is passed on to the WriteHeader and the Write of the writer within.
  pub sent : List ℕ
  pub bodies : List Text

abbrev pub fresh_writer : MetricsResponseWriter
fresh_writer = record { status = 0; sent = []; bodies = [] }

unfoldable pub write_header : MetricsResponseWriter → ℕ → MetricsResponseWriter
write_header w status =
    if not (w.status == 0) then w else record w { status = status; sent = w.sent ++ status ∷ [] }

unfoldable pub write : MetricsResponseWriter → Text → MetricsResponseWriter
write w body =
    let v = if w.status == 0 then write_header w 200 else w in
    record v { bodies = v.bodies ++ body ∷ [] }

-- What a handler calls.
pub data WriterCall : Type 0 where
  call_write_header : ℕ → WriterCall
  call_write : Text → WriterCall

abbrev pub do_call : MetricsResponseWriter → WriterCall → MetricsResponseWriter
do_call w (call_write_header status) = write_header w status
do_call w (call_write body) = write w body

unfoldable pub do_calls : MetricsResponseWriter → List WriterCall → MetricsResponseWriter
do_calls w [] = w
do_calls w (c ∷ cs) = do_calls (do_call w c) cs

-- A status that a handler may send.
abbrev pub HasStatus : WriterCall → Type 0
HasStatus (call_write_header status) = 100 ≤ status
HasStatus (call_write body) = Unit

-- Nothing was sent and nothing is recorded, or one status was sent and is the one that is recorded.
abbrev pub Agrees : MetricsResponseWriter → Type 0
Agrees w = ((w.status ≡ 0) × (w.sent ≡ [])) ⊎ ((100 ≤ w.status) × (w.sent ≡ w.status ∷ []))

write_header-Agrees :
    (w : MetricsResponseWriter) (status : ℕ)
    → 100 ≤ status
    → Agrees w
    → Agrees (write_header w status)
unfolding write_header
write_header-Agrees w status h (inl (z, e)) = rw (z, e) (inr (h, refl))
write_header-Agrees w status h (inr (z, e)) =
    let b : (w.status == 0) ≡ false = ground (arith, z) in rw b (inr (z, e))

do_call-Agrees :
    (w : MetricsResponseWriter) (c : WriterCall) → HasStatus c → Agrees w → Agrees (do_call w c)
unfolding write
do_call-Agrees w (call_write_header status) h a = write_header-Agrees w status h a
do_call-Agrees w (call_write body) h a = elim (Bool-cases (w.status == 0)) [
  | inl b ↦ rw b (write_header-Agrees w 200 (omega arith) a)
  | inr b ↦ rw b a
]

do_calls-Agrees :
    (w : MetricsResponseWriter) (cs : List WriterCall)
    → All HasStatus cs
    → Agrees w
    → Agrees (do_calls w cs)
unfolding do_calls
do_calls-Agrees w [] h a = a
do_calls-Agrees w (c ∷ cs) h a = do_calls-Agrees (do_call w c) cs h.1 (do_call-Agrees w c h.0 a)

-- Whatever a handler calls with statuses from 100 on, the writer within is sent at most one status, and
-- the recorded one is that.
pub fresh_writer-Agrees :
    (cs : List WriterCall) → All HasStatus cs → Agrees (do_calls fresh_writer cs)
fresh_writer-Agrees cs h = do_calls-Agrees fresh_writer cs h (inl (refl, refl))
