-- ===== src/Network/Dhcp/Life.antt =====
-- The DHCP client of src/network/gateway_dhcp_client.c over any sequence of calls, and what a lease needs to be used.
use moxa_4vrs_gateway.Prelude.{
  ℕ, ◌≤◌, ◌≡◌, refl, Bool, true, false, not, ◌&&◌, ◌||◌, Option, none, some, List, [], ◌∷◌, arith,
  if◌then◌else◌, if_cases, length, drop, ℤ, negsuc,
}
use moxa_4vrs_gateway.Network.Dhcp.{
  DhcpState, bound, renewing, rebinding, DhcpClient, expire, restart, renew, send, proceed,
  invalidate, due, gateway_dhcp_step, selecting, DhcpLease, gateway_dhcp_start, gateway_dhcp_stop,
  gateway_dhcp_conflict, gateway_dhcp_probed, gateway_dhcp_packet, is_selecting,
}
use moxa_4vrs_gateway.Network.Dhcp.Receive.{
  gateway_dhcp_receive, take_reply, Options, refuse_lease, take_offer, take_lease, is_reply,
  listens, read_options, no_options, new_lease, get32, receive_options,
}

-- The states in which a lease is in use.
abbrev pub in_use : DhcpState → Bool
in_use bound = true
in_use renewing = true
in_use rebinding = true
in_use _ = false

-- A lease is valid exactly in the states that use it, and the retries are bounded.
pub record IsValid (d : DhcpClient) : Type 0 where
  pub used : d.valid ≡ in_use d.state
  pub tries : d.retries ≤ 4

-- A lease that is used now was used before, is the same, and its time is not over.
abbrev pub StillUsed : DhcpClient → DhcpClient → ℕ → Type 0
StillUsed d e now =
    (e.valid ≡ true) → (d.valid ≡ true) × (e.lease ≡ d.lease) × (due now e.expires_at ≡ false)

expire-IsValid :
    (d : DhcpClient) (now : ℕ) → IsValid d → IsValid (expire d now) × StillUsed d (expire d now) now
unfolding expire invalidate
expire-IsValid d now v = (ground (arith, v.used, v.tries), ground (arith, v.used))

restart-IsValid :
    (d : DhcpClient) (now : ℕ) → IsValid (restart d now) × ((restart d now).valid ≡ false)
unfolding restart invalidate
restart-IsValid d now = ground arith

renew-IsValid :
    (d : DhcpClient) (now : ℕ)
    → IsValid d
    → IsValid (renew d now)
      × ((renew d now).valid ≡ d.valid)
      × ((renew d now).lease ≡ d.lease)
      × ((renew d now).expires_at ≡ d.expires_at)
unfolding renew
renew-IsValid d now v = ground (arith, v.used, v.tries)

send-IsValid :
    (d : DhcpClient) (now : ℕ)
    → IsValid d
    → IsValid (send d now)
      × ((send d now).valid ≡ d.valid)
      × ((send d now).lease ≡ d.lease)
      × ((send d now).expires_at ≡ d.expires_at)
unfolding send
send-IsValid d now v = ground (arith, v.used, v.tries)

proceed-IsValid :
    (d : DhcpClient) (now : ℕ)
    → IsValid d
    → IsValid (proceed d now)
      × (((proceed d now).valid ≡ true)
          → (d.valid ≡ true)
            × ((proceed d now).lease ≡ d.lease)
            × ((proceed d now).expires_at ≡ d.expires_at))
unfolding proceed
proceed-IsValid d now v =
    let (w, e, l, x) = renew-IsValid d now v in
    let (u, f, m, y) = send-IsValid (renew d now) now w in
    ground (arith, v.used, v.tries, w.used, w.tries, u.used, u.tries, e, f, l, m, x, y)

-- After a step, a lease is in use only with the link up and before its end, and only one that was in
-- use before the step, unchanged.
pub gateway_dhcp_step-used :
    (d : DhcpClient) (now : ℕ) (link : Bool)
    → IsValid d
    → let e = gateway_dhcp_step d now link in
      IsValid e
      × ((e.valid ≡ true)
          → (link ≡ true) × (d.valid ≡ true) × (e.lease ≡ d.lease) × (due now e.expires_at ≡ false))
unfolding gateway_dhcp_step invalidate
gateway_dhcp_step-used d now link v =
    let (w, s) = expire-IsValid d now v in
    let c = expire d now in
    let (r, off) = restart-IsValid c now in
    let (u, t) = proceed-IsValid c now w in
    let (x, y) = proceed-IsValid (restart c now) now r in
    ground (arith, v.used, v.tries, w.used, w.tries, s, off, u.used, u.tries, t, x.used, x.tries, y)

refuse_lease-IsValid : (d : DhcpClient) (now : ℕ) → IsValid d → IsValid (refuse_lease d now)
unfolding refuse_lease invalidate
refuse_lease-IsValid d now v = ground (arith, v.tries)

take_offer-IsValid :
    (d : DhcpClient) (o : Options) (l : DhcpLease) (now : ℕ)
    → d.state ≡ selecting
    → IsValid d
    → IsValid (take_offer d o l now)
unfolding take_offer
take_offer-IsValid d o l now s v = ground (arith, v.used, s)

take_lease-IsValid :
    (d : DhcpClient) (o : Options) (l : DhcpLease) (now : ℕ)
    → IsValid d
    → IsValid (take_lease d o l now)
unfolding take_lease
take_lease-IsValid d o l now v = ground (arith, v.tries)

take_reply-IsValid :
    (d : DhcpClient) (o : Options) (ip now : ℕ) → IsValid d → IsValid (take_reply d o ip now).1
unfolding take_reply
take_reply-IsValid d o ip now v =
    let s : (is_selecting d.state ≡ true) → d.state ≡ selecting = λ h. ground (arith, h) in
    ground (
      arith,
      v.used,
      v.tries,
      s,
      refuse_lease-IsValid d now v,
      take_lease-IsValid d o (new_lease o ip) now v,
      λ (h : d.state ≡ selecting). take_offer-IsValid d o (new_lease o ip) now h v,
    )

receive_options-IsValid :
    (d : DhcpClient) (o : Option Options) (p : List ℕ) (now : ℕ)
    → IsValid d
    → IsValid (receive_options d o p now).1
unfolding receive_options
receive_options-IsValid d none p now v = v
receive_options-IsValid d (some o) p now v = take_reply-IsValid d o (get32 p 16) now v

receive-IsValid :
    (d : DhcpClient) (p : List ℕ) (now : ℕ) → IsValid d → IsValid (gateway_dhcp_receive d p now).1
unfolding gateway_dhcp_receive
receive-IsValid d p now v =
    let options = drop 240 p in
    if_cases (λ (r : ℤ × DhcpClient). IsValid r.1) (not (is_reply d p) || not (listens d.state))
      (negsuc 0, d)
      (if d.valid && due now d.expires_at
        then (negsuc 0, gateway_dhcp_step d now true)
        else receive_options d (read_options (length options) no_options options) p now)
      (λ _. v)
      (λ _.
        if_cases (λ (r : ℤ × DhcpClient). IsValid r.1) (d.valid && due now d.expires_at)
          (negsuc 0, gateway_dhcp_step d now true)
          (receive_options d (read_options (length options) no_options options) p now)
          (λ _. (gateway_dhcp_step-used d now true v).0)
          (λ _.
            receive_options-IsValid d (read_options (length options) no_options options) p now v))

-- A call of an operation of the client.
pub data DhcpCall : Type 0 where
  steps : ℕ → Bool → DhcpCall
  receives : List ℕ → ℕ → DhcpCall
  probes : ℕ → DhcpCall
  sends : ℕ → ℕ → DhcpCall
  conflicts : ℕ → DhcpCall
  stops : DhcpCall

unfoldable pub perform : DhcpClient → DhcpCall → DhcpClient
perform d (steps now link) = gateway_dhcp_step d now link
perform d (receives p now) = (gateway_dhcp_receive d p now).1
perform d (probes now) = (gateway_dhcp_probed d now).1
perform d (sends cap now) = (gateway_dhcp_packet d cap now).1
perform d (conflicts now) = gateway_dhcp_conflict d now
perform d stops = gateway_dhcp_stop d

unfoldable pub run : DhcpClient → List DhcpCall → DhcpClient
run d [] = d
run d (c ∷ cs) = run (perform d c) cs

perform-IsValid : (d : DhcpClient) (c : DhcpCall) → IsValid d → IsValid (perform d c)
unfolding perform gateway_dhcp_probed gateway_dhcp_packet gateway_dhcp_conflict gateway_dhcp_stop
    invalidate
perform-IsValid d (steps now link) v = (gateway_dhcp_step-used d now link v).0
perform-IsValid d (receives p now) v = receive-IsValid d p now v
perform-IsValid d (probes now) v =
    ground (arith, v.used, v.tries, gateway_dhcp_step-used d now true v)
perform-IsValid d (sends cap now) v = ground (arith, v.used, v.tries)
perform-IsValid d (conflicts now) v = ground (arith, v.tries)
perform-IsValid d stops v = ground (arith, v.tries)

run_keeps : (d : DhcpClient) (cs : List DhcpCall) → IsValid d → IsValid (run d cs)
unfolding run
run_keeps d [] v = v
run_keeps d (c ∷ cs) v = run_keeps (perform d c) cs (perform-IsValid d c v)

-- Whatever is called on a client that was started, and whatever the packets hold: a lease is valid
-- exactly while the client is bound, renews or rebinds, and there are at most four retries.
pub run-used :
    (mac : List ℕ) (xid now : ℕ) (cs : List DhcpCall)
    → let d = run (gateway_dhcp_start mac xid now) cs in
      (d.valid ≡ in_use d.state) × (d.retries ≤ 4)
unfolding gateway_dhcp_start
run-used mac xid now cs =
    let v =
      run_keeps (gateway_dhcp_start mac xid now) cs (record { used = refl; tries = omega arith }) in
    (v.used, v.tries)
