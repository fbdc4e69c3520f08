-- ===== src/Mux/Buffers.antt =====
-- Calls on the receiver of the mux network, and the buffers that it holds.
use lib_arnetwork_al.Prelude.{
  ◌>>=◌, Bool, Bool-cases, List, Option, [], ap, arith, false, get_elem?, if◌then◌else◌, inl, inr,
  is_neg, le_of_ltb-false, length, ltb, none, refl, some, suc, true, zero, ℕ, ℤ, ◌++◌, ◌+◌, ◌<◌,
  ◌>>=◌, ◌∷◌, ◌≡◌,
}
use lib_arnetwork_al.Platform.{Platform, bytes_u32, read_u32}
use lib_arnetwork_al.Frame.{
  Frame, Return, bad_frame, buffer_empty, default, header_size, network_error,
}
use lib_arnetwork_al.Mux.{
  MuxEvent, MuxObject, QueueReply, RxBuffer, encoded, epipe, etimedout_reply, got_buffer,
  mux_notified, mux_pop_frame, mux_receive, queue_failed, unref_received, unref_sent,
}
use lib_arnetwork_al.Mux.Transfer.{block-at}

-- A call on the receiver, with what libmux or libpomp answers.
pub data MuxCall : Type 0 where
  receive_call : QueueReply → MuxCall
  pop_call : (cdata : ℤ) → Frame → MuxCall

unfoldable pub mux_call : Platform → MuxCall → MuxObject → Option (MuxObject × List MuxEvent)
mux_call p (receive_call reply) o = let (code, o', es) = mux_receive reply o in some (o', es)
mux_call p (pop_call cdata f) o = mux_pop_frame p cdata o f >>= λ (code, o', f'). some (o', [])

unfoldable pub mux_run : Platform → List MuxCall → MuxObject → Option (MuxObject × List MuxEvent)
mux_run p [] o = some (o, [])
mux_run p (c ∷ cs) o =
    mux_call p c o >>= λ (o', es). mux_run p cs o' >>= λ (o'', es'). some (o'', es ++ es')

abbrev pub option_list : Option RxBuffer → List RxBuffer
option_list none = []
option_list (some b) = b ∷ []

-- The buffers that an object holds.
abbrev pub holds : MuxObject → List RxBuffer
holds o = option_list o.rxbuf_recv ++ option_list o.rxbuf_pop

-- The received buffers that are released, in order.
abbrev pub releases : List MuxEvent → List RxBuffer
releases [] = []
releases (unref_received b ∷ es) = b ∷ releases es
releases (encoded c bytes ∷ es) = releases es
releases (unref_sent ∷ es) = releases es
releases (mux_notified c d ∷ es) = releases es

-- The buffers that the queue gives to some calls. A queue that is being destroyed, or gives none in
-- time, is not used again.
abbrev pub arrivals : Option ℕ → List MuxCall → List RxBuffer
arrivals queue [] = []
arrivals queue (pop_call cdata f ∷ cs) = arrivals queue cs
arrivals none (receive_call reply ∷ cs) = arrivals none cs
arrivals (some q) (receive_call (got_buffer b) ∷ cs) = b ∷ arrivals (some q) cs
arrivals (some q) (receive_call queue_failed ∷ cs) = arrivals (some q) cs
arrivals (some q) (receive_call epipe ∷ cs) = arrivals none cs
arrivals (some q) (receive_call etimedout_reply ∷ cs) = arrivals none cs

pub releases-append : (es es' : List MuxEvent) → releases (es ++ es') ≡ releases es ++ releases es'
releases-append [] es' = refl
releases-append (unref_received b ∷ es) es' = ap (λ r. b ∷ r) (releases-append es es')
releases-append (encoded c bytes ∷ es) es' = releases-append es es'
releases-append (unref_sent ∷ es) es' = releases-append es es'
releases-append (mux_notified c d ∷ es) es' = releases-append es es'

get_elem?-some : (xs : List ℕ) (k : ℕ) → k < length xs → (x : ℕ) × (get_elem? xs k ≡ some x)
get_elem?-some [] k h = absurd (omega arith)
get_elem?-some (x ∷ xs) zero h = (x, refl)
get_elem?-some (x ∷ xs) (suc k) h = get_elem?-some xs k (omega arith)

choose-frame :
    (w : Bool) (o : MuxObject) (f : Frame) (x y : ℕ)
    → ◌≡◌ {A = Return × MuxObject × Frame}
        (if w
          then (bad_frame, o, record f { data_ptr = x })
          else (default, o, record f { data_ptr = y }))
        (if w then bad_frame else default, o, record f { data_ptr = if w then x else y })
choose-frame true o f x y = refl
choose-frame false o f x y = refl

pub mux_pop_frame-empty :
    (p : Platform) (cdata : ℤ) (o : MuxObject) (f : Frame)
    → o.rxbuf_recv ≡ none
    → mux_pop_frame p cdata o f ≡ some (buffer_empty, o, f)
unfolding mux_pop_frame
mux_pop_frame-empty p cdata o f e = rw e refl

-- PopFrame of a buffer, where none was popped: it returns, and the buffer is held as the popped one.
pub mux_pop_frame-popped :
    (p : Platform) (cdata : ℤ) (o : MuxObject) (f : Frame) (b : RxBuffer)
    → o.rxbuf_recv ≡ some b
    → o.rxbuf_pop ≡ none
    → (code : Return) × (f' : Frame) × (mux_pop_frame p cdata o f
        ≡ some (code, record o { rxbuf_recv = none; rxbuf_pop = some b }, f'))
unfolding mux_pop_frame read_u32
mux_pop_frame-popped p cdata o f b at idle = elim (Bool-cases (is_neg cdata)) [
  | inl failed ↦ (network_error, f, rw (at, idle, failed) refl)
  | inr read ↦ elim (Bool-cases (ltb (length b.bytes) header_size)) [
    | inl short ↦ (bad_frame, f, rw (at, idle, read, short) refl)
    | inr long ↦
        let n = le_of_ltb-false (length b.bytes) header_size long in
        let (x0, e0) = get_elem?-some b.bytes 0 (omega (arith, n)) in
        let (x1, e1) = get_elem?-some b.bytes 1 (omega (arith, n)) in
        let (x2, e2) = get_elem?-some b.bytes 2 (omega (arith, n)) in
        let (x3, e3) = get_elem?-some b.bytes 3 (omega (arith, n)) in
        let (x4, e4) = get_elem?-some b.bytes 4 (omega (arith, n)) in
        let (x5, e5) = get_elem?-some b.bytes 5 (omega (arith, n)) in
        let (x6, e6) = get_elem?-some b.bytes 6 (omega (arith, n)) in
        let a = b.address in
        let whole = ltb (length b.bytes) (p.dtohl (bytes_u32 x3 x4 x5 x6)) in
        (
          if whole then bad_frame else default,
          record f {
            type = x0;
            id = x1;
            seq = x2;
            size = p.dtohl (bytes_u32 x3 x4 x5 x6);
            data_ptr = if whole then f.data_ptr else a + header_size;
          },
          rw
              (
                at,
                idle,
                read,
                long,
                block-at a b.bytes a 0 (omega arith),
                block-at a b.bytes (a + 1) 1 (omega arith),
                block-at a b.bytes (a + 2) 2 (omega arith),
                block-at a b.bytes (a + 3) 3 (omega arith),
                block-at a b.bytes (a + 3 + 1) 4 (omega arith),
                block-at a b.bytes (a + 3 + 2) 5 (omega arith),
                block-at a b.bytes (a + 3 + 3) 6 (omega arith),
                e0,
                e1,
                e2,
                e3,
                e4,
                e5,
                e6,
              )
              (ap some (
                choose-frame whole (record o { rxbuf_recv = none; rxbuf_pop = some b })
                  (record f {
                    type = x0;
                    id = x1;
                    seq = x2;
                    size = p.dtohl (bytes_u32 x3 x4 x5 x6);
                  })
                  f.data_ptr (a + header_size))),
        )
  ]
]
