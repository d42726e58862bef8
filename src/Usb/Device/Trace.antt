-- ===== src/Usb/Device/Trace.antt =====
-- The device between its drivers, the lower layer and the host, in any order of calls.
use micropython_lib.Prelude.{
  ℕ, suc, [], ◌-◌, ◌≤◌, ◌≡◌, ◌≢◌, refl, arith, Bool, true, false, ◌==◌, if◌then◌else◌, List, Option,
  none, some, Result, ok, raise-ne-ok, ok-injective, sym, ap, ◌∙◌, ==_iff, ◌⊎◌, inl, inr,
}
use micropython_lib.Prelude.Dict.{Dict, lookup, contains, insert, lookup-insert, contains-insert}
use micropython_lib.Usb.Device.{
  Device, new, Transfer, idle, plain, callback, is_busy, submit_xfer, xfer_begin, xfer_end,
  open_itf_cb, reset_cb,
}
use native.Mathlib.Decide.{ℕ_discrete}
use micropython_lib.Usb.Device.Opens.{open_itf_cb-IsKnown, AllFree, open_itf_cb-Stays}
use micropython_lib.Usb.Device.Transfers.{
  IsKnown, Submitted, unknown, refused, taken, submit_xfer-Submitted,
}

-- The device, and how many transfers the lower layer has in flight on each endpoint.
pub record World : Type 0 where
  pub device : Device
  pub in_flight : ℕ → ℕ

abbrev world : Device → (ℕ → ℕ) → World
world d f = record { device = d; in_flight = f }

abbrev pub more : (ℕ → ℕ) → ℕ → ℕ → ℕ
more f ep e = if e == ep then suc (f e) else f e

abbrev pub fewer : (ℕ → ℕ) → ℕ → ℕ → ℕ
fewer f ep e = if e == ep then f e - 1 else f e

-- One call. The host may configure the device, with descriptors of endpoints on which no transfer is
-- in flight. A reset cancels what is in
-- flight. A driver submits a transfer, which the lower layer accepts or refuses. A transfer
-- completes: its callback begins, and calls of the driver may follow before it ends.
pub data Step : World → World → Type 0 where
  opens :
      (d e : Device) (f : ℕ → ℕ) (rounds : ℕ) (desc : List ℕ) (r : Option ℕ)
      → open_itf_cb rounds d desc ≡ some (ok (e, r))
      → AllFree f desc rounds 0
      → Step (record { device = d; in_flight = f }) (record { device = e; in_flight = f })
  resets :
      (d : Device) (f : ℕ → ℕ)
      → Step
          (record { device = d; in_flight = f })
          (record { device = (reset_cb d).0; in_flight = λ ep. 0 })
  submits :
      (d e : Device) (f : ℕ → ℕ) (thread ep : ℕ) (cb : Option ℕ)
      → submit_xfer d thread ep cb ≡ ok e
      → Step (record { device = d; in_flight = f }) (record { device = e; in_flight = more f ep })
  fails :
      (d e : Device) (f : ℕ → ℕ) (thread ep : ℕ) (cb : Option ℕ)
      → submit_xfer d thread ep cb ≡ ok e
      → Step (record { device = d; in_flight = f }) (record { device = e; in_flight = f })
  begins :
      (d : Device) (f : ℕ → ℕ) (thread ep : ℕ)
      → Step
          (record { device = d; in_flight = f })
          (record { device = (xfer_begin d thread ep).0; in_flight = fewer f ep })
  ends :
      (d : Device) (f : ℕ → ℕ)
      → Step (record { device = d; in_flight = f }) (record { device = xfer_end d; in_flight = f })

pub data Reaches (a : World) : World → Type 0 where
  here : Reaches a a
  next : {b c : World} → Reaches a b → Step b c → Reaches a c

-- The device with its table of interfaces, before the host has configured it.
abbrev pub idle_world : Dict ℕ → World
idle_world itfs = record { device = record new { itfs = itfs }; in_flight = λ ep. 0 }

-- How many transfers the entry of an endpoint allows for.
abbrev allowed : Option Transfer → ℕ
allowed none = 0
allowed (some t) = if is_busy t then 1 else 0

record IsSafe (w : World) : Type 0 where
  known : IsKnown w.device
  fits : (ep : ℕ) → w.in_flight ep ≤ allowed (lookup ep w.device.ep_cbs)

allowed_max : (o : Option Transfer) → allowed o ≤ 1
allowed_max none = omega arith
allowed_max (some idle) = omega arith
allowed_max (some plain) = omega arith
allowed_max (some (callback c)) = omega arith

allowed_busy : (t : Transfer) → t ≢ idle → allowed (some t) ≡ 1
allowed_busy idle h = absurd (h refl)
allowed_busy plain h = refl
allowed_busy (callback c) h = refl

-- The entry of a transfer that is taken allows for it, and the entries of the others stay.
taken_fits :
    (n : ℕ) (old : Option Transfer) (t : Transfer) (here : Bool)
    → t ≢ idle
    → n ≤ allowed old
    → (here ≡ true → old ≡ some idle)
    → ((if here then suc n else n) ≤ allowed (if here then some t else old))
      × (n ≤ allowed (if here then some t else old))
taken_fits n old t false ne h e = (h, h)
taken_fits n old t true ne h e =
    let none_before : n ≤ 0 = rw (e refl) at h in
    (rw (allowed_busy t ne) (omega arith), omega arith)

submits-IsSafe :
    (d : Device) (f : ℕ → ℕ) (thread ep : ℕ) (cb : Option ℕ) (r : Result Device) (e : Device)
    → Submitted d thread ep cb r
    → r ≡ ok e
    → IsSafe (world d f)
    → IsSafe (world e (more f ep)) × IsSafe (world e f)
submits-IsSafe d f thread ep cb _ e (unknown n) q s = absurd (raise-ne-ok q)
submits-IsSafe d f thread ep cb _ e (refused b) q s = absurd (raise-ne-ok q)
submits-IsSafe d f thread ep cb _ e (taken t ne i g) q s =
    rw (sym (ok-injective q))
      (record { known = keeps; fits = more_fits }, record { known = keeps; fits = same_fits })
  where
    keeps : IsKnown (record d { ep_cbs = insert ep t d.ep_cbs })
    keeps k c = ground (arith, s.known k c, contains-insert k ep t d.ep_cbs)

    at_entry : (k : ℕ) → (k == ep) ≡ true → lookup k d.ep_cbs ≡ some idle
    at_entry k p = ap (λ j. lookup j d.ep_cbs) ((==_iff k ep).0 p) ∙ i

    more_fits : (k : ℕ) → more f ep k ≤ allowed (lookup k (insert ep t d.ep_cbs))
    more_fits k =
        rw (lookup-insert k ep t d.ep_cbs)
          (taken_fits (f k) (lookup k d.ep_cbs) t (k == ep) ne (s.fits k) (at_entry k)).0

    same_fits : (k : ℕ) → f k ≤ allowed (lookup k (insert ep t d.ep_cbs))
    same_fits k =
        rw (lookup-insert k ep t d.ep_cbs)
          (taken_fits (f k) (lookup k d.ep_cbs) t (k == ep) ne (s.fits k) (at_entry k)).1

begins-IsSafe :
    (d : Device) (f : ℕ → ℕ) (thread ep : ℕ)
    → IsSafe (world d f)
    → IsSafe (world (xfer_begin d thread ep).0 (fewer f ep))
unfolding xfer_begin
begins-IsSafe d f thread ep s = record {
  known = λ k c. ground (arith, s.known k c, contains-insert k ep idle d.ep_cbs);
  fits = λ k. rw (lookup-insert k ep idle d.ep_cbs) (done_fits k (k == ep) (s.fits k));
}
  where
    done_fits :
        (k : ℕ) (here : Bool)
        → f k ≤ allowed (lookup k d.ep_cbs)
        → (if here then f k - 1 else f k) ≤ allowed (if here then some idle else lookup k d.ep_cbs)
    done_fits k false h = h
    done_fits k true h = omega (arith, h, allowed_max (lookup k d.ep_cbs))

opens-IsSafe :
    (d e : Device) (f : ℕ → ℕ) (rounds : ℕ) (desc : List ℕ) (r : Option ℕ)
    → open_itf_cb rounds d desc ≡ some (ok (e, r))
    → AllFree f desc rounds 0
    → IsSafe (world d f)
    → IsSafe (world e f)
opens-IsSafe d e f rounds desc r q free s = record {
  known = open_itf_cb-IsKnown rounds d e desc r q s.known;
  fits = λ ep. elim (ℕ_discrete (f ep) 0) [
    | yes z ↦ omega (arith, z)
    | no ne ↦ rw (open_itf_cb-Stays f rounds d e desc r free q ep ne) (s.fits ep)
  ];
}

Step-IsSafe : {w v : World} → Step w v → IsSafe w → IsSafe v
unfolding reset_cb xfer_end contains
Step-IsSafe (opens d e f rounds desc r q free) s = opens-IsSafe d e f rounds desc r q free s
Step-IsSafe (resets d f) s = record { known = λ ep c. nothing_known ep c; fits = λ ep. omega arith }
  where
    nothing_known : (ep : ℕ) → contains {V = ℕ} ep [] ≡ true → contains {V = Transfer} ep [] ≡ true
    nothing_known ep c = cc
Step-IsSafe (submits d e f thread ep cb q) s =
    (submits-IsSafe d f thread ep cb _ e (submit_xfer-Submitted d thread ep cb s.known) q s).0
Step-IsSafe (fails d e f thread ep cb q) s =
    (submits-IsSafe d f thread ep cb _ e (submit_xfer-Submitted d thread ep cb s.known) q s).1
Step-IsSafe (begins d f thread ep) s = begins-IsSafe d f thread ep s
Step-IsSafe (ends d f) s = record { known = s.known; fits = s.fits }

Reaches-IsSafe : {w v : World} → Reaches w v → IsSafe w → IsSafe v
Reaches-IsSafe here s = s
Reaches-IsSafe (next r st) s = Step-IsSafe st (Reaches-IsSafe r s)

idle_world-IsSafe : (itfs : Dict ℕ) → IsSafe (idle_world itfs)
unfolding contains lookup
idle_world-IsSafe itfs = record { known = λ ep c. cc; fits = λ ep. omega arith }

allowed_idle : (o : Option Transfer) → (o ≡ none) ⊎ (o ≡ some idle) → allowed o ≡ 0
allowed_idle o (inl e) = rw e refl
allowed_idle o (inr e) = rw e refl

-- In every order of calls on a device that the host has not configured yet, and where the host
-- configures only endpoints on which no transfer is in flight, the lower layer never has more than
-- one transfer in flight on an endpoint, and none where `_ep_cbs` has no entry or None.
pub Reaches_one_transfer :
    (itfs : Dict ℕ) (w : World) (ep : ℕ)
    → Reaches (idle_world itfs) w
    → (w.in_flight ep ≤ 1)
      × ((lookup ep w.device.ep_cbs ≡ none) ⊎ (lookup ep w.device.ep_cbs ≡ some idle)
          → w.in_flight ep ≡ 0)
Reaches_one_transfer itfs w ep r =
    let s = Reaches-IsSafe r (idle_world-IsSafe itfs) in
    (
      omega (arith, s.fits ep, allowed_max (lookup ep w.device.ep_cbs)),
      λ e. omega (arith, s.fits ep, allowed_idle (lookup ep w.device.ep_cbs) e),
    )

-- In every state that is reached from there, `_submit_xfer` raises no error but the two it names:
-- ValueError for an endpoint that is not open and RuntimeError for one that is blocked.
pub Reaches-Submitted :
    (itfs : Dict ℕ) (w : World) (thread ep : ℕ) (cb : Option ℕ)
    → Reaches (idle_world itfs) w
    → Submitted w.device thread ep cb (submit_xfer w.device thread ep cb)
Reaches-Submitted itfs w thread ep cb r =
    submit_xfer-Submitted w.device thread ep cb (Reaches-IsSafe r (idle_world-IsSafe itfs)).known
