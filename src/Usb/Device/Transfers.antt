-- ===== src/Usb/Device/Transfers.antt =====
-- When a transfer may be submitted: one at a time on an endpoint, and during a callback only from
-- the thread that runs it.
use micropython_lib.Prelude.{
  ℕ, ◌≡◌, ◌≢◌, refl, arith, Bool, true, false, not, ◌&&◌, ◌||◌, if◌then◌else◌, Option, none, some,
  Result, ok, raise, value_error, runtime_error, inl, inr, Bool-cases, ◌∙◌, sym, raise-ne-ok,
  ok-injective,
}
use micropython_lib.Prelude.Dict.{
  Dict, lookup, insert, contains, contains-some, contains-none, lookup-cases, lookup-insert,
}
use micropython_lib.Usb.Device.{
  Device, is_ep, done_cb, Transfer, idle, plain, callback, is_busy, submit_xfer, xfer_pending,
  xfer_begin, interface_submit_xfer,
}

-- Every endpoint has an entry in `_ep_cbs`.
abbrev pub IsKnown : Device → Type 0
IsKnown d = (ep : ℕ) → contains ep d.eps ≡ true → contains ep d.ep_cbs ≡ true

-- What keeps a thread from submitting: a transfer that has not completed, or a callback of this
-- endpoint that another thread runs.
pub data IsBlocked (d : Device) (thread ep : ℕ) : Type 0 where
  in_flight : (t : Transfer) → lookup ep d.ep_cbs ≡ some t → t ≢ idle → IsBlocked d thread ep
  in_callback : d.cb_ep ≡ some ep → d.cb_thread ≢ some thread → IsBlocked d thread ep

-- The three results of `_submit_xfer`.
pub data Submitted (d : Device) (thread ep : ℕ) (cb : Option ℕ) : Result Device → Type 0 where
  unknown : lookup ep d.eps ≡ none → Submitted d thread ep cb (raise value_error)
  refused : IsBlocked d thread ep → Submitted d thread ep cb (raise runtime_error)
  taken :
      (t : Transfer)
      → t ≢ idle
      → lookup ep d.ep_cbs ≡ some idle
      → (d.cb_ep ≡ some ep → d.cb_thread ≡ some thread)
      → Submitted d thread ep cb (ok (record d { ep_cbs = insert ep t d.ep_cbs }))

some-ne-none : {A : Type 0} {a : A} → some a ≡ none → ⊥
some-ne-none h = cc

plain-ne-idle : plain ≢ idle
plain-ne-idle h = cc

callback-ne-idle : (c : ℕ) → callback c ≢ idle
callback-ne-idle c h = cc

busy-ne-idle : (t : Transfer) → is_busy t ≡ true → t ≢ idle
busy-ne-idle idle h e = cc
busy-ne-idle plain h e = cc
busy-ne-idle (callback c) h e = cc

-- The test of the callback's thread.
abbrev other_thread : Option ℕ → Option ℕ → ℕ → ℕ → Bool
other_thread cb_ep cb_thread thread ep = is_ep cb_ep ep && not (is_ep cb_thread thread)

other_thread_sound :
    (e t : Option ℕ) (thread ep : ℕ)
    → other_thread e t thread ep ≡ true
    → (e ≡ some ep) × (t ≢ some thread)
other_thread_sound none t thread ep h = cc
other_thread_sound (some e) none thread ep h = (ground arith, λ q. cc)
other_thread_sound (some e) (some t) thread ep h = (ground arith, λ q. ground arith)

other_thread_free :
    (e t : Option ℕ) (thread ep : ℕ)
    → other_thread e t thread ep ≡ false
    → e ≡ some ep
    → t ≡ some thread
other_thread_free none t thread ep h q = cc
other_thread_free (some e) none thread ep h q = ground arith
other_thread_free (some e) (some t) thread ep h q = ground arith

done_cb-ne-idle : (cb : Option ℕ) → done_cb cb ≢ idle
done_cb-ne-idle none = plain-ne-idle
done_cb-ne-idle (some c) = callback-ne-idle c

submit_xfer-eq :
    (d : Device) (thread ep itf : ℕ) (cb : Option ℕ) (t : Transfer)
    → lookup ep d.eps ≡ some itf
    → lookup ep d.ep_cbs ≡ some t
    → submit_xfer d thread ep cb ≡ (
        if is_busy t || other_thread d.cb_ep d.cb_thread thread ep
        then raise runtime_error
        else ok (record d { ep_cbs = insert ep (done_cb cb) d.ep_cbs }))
unfolding submit_xfer xfer_pending
submit_xfer-eq d thread ep itf cb t e f = rw (contains-some ep itf d.eps e, f) refl

submit_xfer_idle :
    (d : Device) (thread ep itf : ℕ) (cb : Option ℕ)
    → lookup ep d.eps ≡ some itf
    → lookup ep d.ep_cbs ≡ some idle
    → Submitted d thread ep cb (submit_xfer d thread ep cb)
submit_xfer_idle d thread ep itf cb e f =
    elim (Bool-cases (other_thread d.cb_ep d.cb_thread thread ep)) [
      | inl h ↦
          rw (submit_xfer-eq d thread ep itf cb idle e f, h)
            (refused (
              in_callback (other_thread_sound d.cb_ep d.cb_thread thread ep h).0
                (other_thread_sound d.cb_ep d.cb_thread thread ep h).1))
      | inr h ↦
          rw (submit_xfer-eq d thread ep itf cb idle e f, h)
            (taken (done_cb cb) (done_cb-ne-idle cb) f
              (other_thread_free d.cb_ep d.cb_thread thread ep h))
    ]

submit_xfer_known :
    (d : Device) (thread ep itf : ℕ) (cb : Option ℕ) (t : Transfer)
    → lookup ep d.eps ≡ some itf
    → lookup ep d.ep_cbs ≡ some t
    → Submitted d thread ep cb (submit_xfer d thread ep cb)
submit_xfer_known d thread ep itf cb idle e f = submit_xfer_idle d thread ep itf cb e f
submit_xfer_known d thread ep itf cb plain e f =
    rw (submit_xfer-eq d thread ep itf cb plain e f) (refused (in_flight plain f plain-ne-idle))
submit_xfer_known d thread ep itf cb (callback c) e f =
    rw (submit_xfer-eq d thread ep itf cb (callback c) e f)
      (refused (in_flight (callback c) f (callback-ne-idle c)))

entry :
    (ep : ℕ) (d : Dict Transfer) → contains ep d ≡ true → (t : Transfer) × (lookup ep d ≡ some t)
entry ep d c = elim (lookup-cases ep d) [ inl (n, _) ↦ cc | inr (t, _, e) ↦ (t, e) ]

submit_xfer_unknown :
    (d : Device) (thread ep : ℕ) (cb : Option ℕ)
    → lookup ep d.eps ≡ none
    → submit_xfer d thread ep cb ≡ raise value_error
unfolding submit_xfer
submit_xfer_unknown d thread ep cb e = rw (contains-none ep d.eps e) refl

-- In a state where every endpoint has its entry, `_submit_xfer` raises ValueError for an endpoint
-- that is not open, RuntimeError where the endpoint is blocked, and else enters the transfer.
pub submit_xfer-Submitted :
    (d : Device) (thread ep : ℕ) (cb : Option ℕ)
    → IsKnown d
    → Submitted d thread ep cb (submit_xfer d thread ep cb)
submit_xfer-Submitted d thread ep cb k = elim (lookup-cases ep d.eps) [
  | inl (_, e) ↦ rw (submit_xfer_unknown d thread ep cb e) (unknown e)
  | inr (itf, c, e) ↦
      let (t, f) = entry ep d.ep_cbs (k ep c) in submit_xfer_known d thread ep itf cb t e f
]

lookup-insert_self : (k : ℕ) (t : Transfer) (d : Dict Transfer) → lookup k (insert k t d) ≡ some t
lookup-insert_self k t d = ground (arith, lookup-insert k k t d)

-- When the callback of a transfer on an open endpoint begins, and before another call changes the
-- device, its own thread may submit the next transfer on that endpoint, and no other thread may.
pub submit_xfer-xfer_begin :
    (d : Device) (thread other ep itf : ℕ) (cb : Option ℕ)
    → lookup ep d.eps ≡ some itf
    → thread ≢ other
    → let begun = (xfer_begin d thread ep).0 in
      (submit_xfer begun thread ep cb
        ≡ ok (record begun { ep_cbs = insert ep (done_cb cb) begun.ep_cbs }))
      × (submit_xfer begun other ep cb ≡ raise runtime_error)
unfolding xfer_begin
submit_xfer-xfer_begin d thread other ep itf cb e ne = (
  submit_xfer-eq begun thread ep itf cb idle e (lookup-insert_self ep idle d.ep_cbs) ∙ ground arith,
  submit_xfer-eq begun other ep itf cb idle e (lookup-insert_self ep idle d.ep_cbs) ∙ ground arith,
)
  where
    begun : Device
    begun = record d { cb_thread = some thread; cb_ep = some ep; ep_cbs = insert ep idle d.ep_cbs }

pub taken_busy :
    (d : Device) (thread ep : ℕ) (cb : Option ℕ) (r : Result Device) (u : Device)
    → Submitted d thread ep cb r
    → r ≡ ok u
    → (t : Transfer) × (t ≢ idle) × (u ≡ record d { ep_cbs = insert ep t d.ep_cbs })
taken_busy d thread ep cb _ u (unknown e) q = absurd (raise-ne-ok q)
taken_busy d thread ep cb _ u (refused b) q = absurd (raise-ne-ok q)
taken_busy d thread ep cb _ u (taken t ne e f) q = (t, ne, ok-injective (sym q))

submit_xfer_blocked :
    (d : Device) (thread ep itf : ℕ) (cb : Option ℕ) (t : Transfer)
    → lookup ep d.eps ≡ some itf
    → lookup ep d.ep_cbs ≡ some t
    → t ≢ idle
    → submit_xfer d thread ep cb ≡ raise runtime_error
submit_xfer_blocked d thread ep itf cb idle e f ne = absurd (ne refl)
submit_xfer_blocked d thread ep itf cb plain e f ne =
    rw (submit_xfer-eq d thread ep itf cb plain e f) refl
submit_xfer_blocked d thread ep itf cb (callback c) e f ne =
    rw (submit_xfer-eq d thread ep itf cb (callback c) e f) refl

-- Where the lower layer refuses a transfer that `_submit_xfer` let through, RuntimeError is raised and
-- the entry of the endpoint stays: the next call, if it is a submission on it, raises RuntimeError,
-- from whichever thread.
pub interface_submit_xfer_refused :
    (d u : Device) (thread other ep itf : ℕ) (cb next : Option ℕ)
    → IsKnown d
    → lookup ep d.eps ≡ some itf
    → submit_xfer d thread ep cb ≡ ok u
    → let (after, r) = interface_submit_xfer true false d thread ep cb in
      (r ≡ raise runtime_error) × (submit_xfer after other ep next ≡ raise runtime_error)
unfolding interface_submit_xfer
interface_submit_xfer_refused d u thread other ep itf cb next k e q =
    let (t, ne, same) = taken_busy d thread ep cb _ u (submit_xfer-Submitted d thread ep cb k) q in
    rw q (
      refl,
      rw same (
          submit_xfer_blocked (record d { ep_cbs = insert ep t d.ep_cbs }) other ep itf next t e
            (lookup-insert_self ep t d.ep_cbs) ne),
    )
