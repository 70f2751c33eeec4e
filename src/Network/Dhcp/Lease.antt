-- ===== src/Network/Dhcp/Lease.antt =====
-- What `gateway_dhcp_receive` of src/network/gateway_dhcp_client.c takes for a lease, and the size of what the client sends.
use moxa_4vrs_gateway.Prelude.{
  ℕ, ◌-◌, ◌*◌, ◌/◌, ◌≤◌, ◌<◌, min, ◌≡◌, refl, sym, ap, ap₂, subst, ◌∙◌, ◌≢◌, ◌⊎◌, inl, inr, Bool,
  true, false, not, ◌&&◌, ◌||◌, some, List, [], ◌∷◌, ◌++◌, arith, ltb, ◌==◌, if◌then◌else◌,
  Bool-cases, if_cases, if_else, add32, sub32, length, take, drop, replicate, length-append,
  length-replicate, ℤ, pos, negsuc,
}
use moxa_4vrs_gateway.Gateway.Config.{same_text}
use moxa_4vrs_gateway.Network.Dhcp.{
  DhcpClient, due, is_selecting, gateway_dhcp_step, gateway_dhcp_packet, packet_options,
  packet_header, put32, is_requesting, is_renewing, leased,
}
use moxa_4vrs_gateway.Network.Dhcp.Receive.{
  take_reply, Options, take_lease, is_reply, read_options, no_options, times_accepted,
  server_accepted, type_accepted, new_lease, lease_accepted, lease_time, renew_time, rebind_time,
  lease_base, gateway_dhcp_receive, receive_options, listens, get32, byte_at,
}

-- What a packet must be, for a client that is this: a whole reply on an Ethernet, under the client's
-- transaction and address, with the cookie of DHCP.
pub record ForClient (d : DhcpClient) (p : List ℕ) : Type 0 where
  pub long : 241 ≤ length p
  pub short : length p ≤ 1500
  pub op : byte_at p 0 ≡ 2
  pub ethernet : (byte_at p 1 ≡ 1) × (byte_at p 2 ≡ 6)
  pub transaction : get32 p 4 ≡ d.xid
  pub address : take 6 (drop 28 p) ≡ d.mac
  pub cookie : get32 p 236 ≡ 0x63825363

-- A server that is named, is no loopback or multicast address, and was asked for the lease, where the
-- client asks for one or renews it.
pub record FromServer (d : DhcpClient) (o : Options) : Type 0 where
  pub ended : o.ended ≡ true
  pub named : o.server ≢ 0
  pub below : o.server < 224 * 16777216
  pub remote : o.server / 16777216 ≢ 127
  pub requested : (is_requesting d.state ≡ false) ⊎ (o.server ≡ d.server)
  pub renewed : (is_renewing d.state ≡ false) ⊎ (o.server ≡ d.server)

-- A lease taken from the options of a packet, by a client that is this before it.
pub record Taken (d : DhcpClient) (p : List ℕ) (now : ℕ) (o : Options) (e : DhcpClient)
    : Type 0 where
  pub reply : ForClient d p
  pub unexpired : (d.valid && due now d.expires_at) ≡ false
  pub read : read_options (length (drop 240 p)) no_options (drop 240 p) ≡ some o
  pub server : FromServer d o
  pub offered : (is_requesting d.state ≡ false) ⊎ (e.lease.address ≡ d.lease.address)
  pub ack : o.type ≡ 5
  pub usable : lease_accepted e.lease ≡ true
  pub renews : e.renew_at ≡ add32 (lease_base d now) (renew_time o * 1000)
  pub rebinds : e.rebind_at ≡ add32 (lease_base d now) (rebind_time o * 1000)
  pub ends : e.expires_at ≡ add32 (lease_base d now) (lease_time o * 1000)
  pub order :
      (0 < renew_time o)
      × (renew_time o < rebind_time o)
      × (rebind_time o < lease_time o)
      × (lease_time o ≤ 1728000)
  pub remaining : sub32 now (lease_base d now) < lease_time o * 1000

-- What the options of a reply must say where a lease is taken.
record Terms (d : DhcpClient) (o : Options) (ip now : ℕ) (e : DhcpClient) : Type 0 where
  server : server_accepted d o ≡ true
  typed : type_accepted d o ≡ true
  late : is_selecting d.state ≡ false
  offered :
      (is_requesting d.state && not (same_text (new_lease o ip).address d.lease.address)) ≡ false
  times : times_accepted d o ip now ≡ true
  usable : lease_accepted (new_lease o ip) ≡ true
  result : e ≡ take_lease d o (new_lease o ip) now

take_reply-Terms :
    (d : DhcpClient) (o : Options) (ip now : ℕ)
    → (take_reply d o ip now).0 ≡ pos 1
    → Terms d o ip now (take_reply d o ip now).1
unfolding take_reply
take_reply-Terms d o ip now h = ground (arith, h)

lease_time_lem : (o : Options) → lease_time o ≤ 1728000
unfolding lease_time
lease_time_lem o = ground arith

same_text-eq : (xs ys : List ℕ) → same_text xs ys ≡ true → xs ≡ ys
unfolding same_text
same_text-eq [] [] h = refl
same_text-eq [] (y ∷ ys) h = cc h
same_text-eq (x ∷ xs) [] h = cc h
same_text-eq (x ∷ xs) (y ∷ ys) h =
    ap₂ ◌∷◌ (ground (arith, h)) (same_text-eq xs ys (ground (arith, h)))

is_reply-ForClient : (d : DhcpClient) (p : List ℕ) → is_reply d p ≡ true → ForClient d p
unfolding is_reply
is_reply-ForClient d p h = record {
  long = ground (arith, h);
  short = ground (arith, h);
  op = ground (arith, h);
  ethernet = ground (arith, h);
  transaction = ground (arith, h);
  address = same_text-eq _ _ (ground (arith, h));
  cookie = ground (arith, h);
}

server_accepted-FromServer :
    (d : DhcpClient) (o : Options) → server_accepted d o ≡ true → FromServer d o
unfolding server_accepted
server_accepted-FromServer d o h = record {
  ended = ground (arith, h);
  named = ground (arith, h);
  below = ground (arith, h);
  remote = ground (arith, h);
  requested = ground (arith, h);
  renewed = ground (arith, h);
}

Terms-Taken :
    (d : DhcpClient) (p : List ℕ) (now : ℕ) (o : Options) (e : DhcpClient)
    → is_reply d p ≡ true
    → (d.valid && due now d.expires_at) ≡ false
    → read_options (length (drop 240 p)) no_options (drop 240 p) ≡ some o
    → Terms d o (get32 p 16) now e
    → Taken d p now o e
unfolding type_accepted times_accepted take_lease
Terms-Taken d p now o e reply fresh read t = record {
  reply = is_reply-ForClient d p reply;
  unexpired = fresh;
  read = read;
  server = server_accepted-FromServer d o t.server;
  offered = elim (Bool-cases (is_requesting d.state)) [
    | inl on ↦ inr (
        ap (λ (x : DhcpClient). x.lease.address) t.result
        ∙ same_text-eq (new_lease o (get32 p 16)).address d.lease.address
            (ground (arith, on, t.offered)))
    | inr off ↦ inl off
  ];
  ack = ground (arith, t.typed, t.late);
  usable = ap (λ (x : DhcpClient). lease_accepted x.lease) t.result ∙ t.usable;
  renews = ap (λ (x : DhcpClient). x.renew_at) t.result;
  rebinds = ap (λ (x : DhcpClient). x.rebind_at) t.result;
  ends = ap (λ (x : DhcpClient). x.expires_at) t.result;
  order = ground (arith, t.times, lease_time_lem o);
  remaining = ground (arith, t.times);
}

-- A packet is taken for a lease only where it is a whole reply of this transaction for this client,
-- from the server and for the address that it asked for, an acknowledgement with a usable lease; and then the times to renew,
-- to rebind and to end follow each other and stay below twenty days after the request.
pub gateway_dhcp_receive-Taken :
    (d : DhcpClient) (p : List ℕ) (now : ℕ) (o : Options)
    → read_options (length (drop 240 p)) no_options (drop 240 p) ≡ some o
    → (gateway_dhcp_receive d p now).0 ≡ pos 1
    → Taken d p now o (gateway_dhcp_receive d p now).1
unfolding gateway_dhcp_receive receive_options
gateway_dhcp_receive-Taken d p now o read =
    let refused = not (is_reply d p) || not (listens d.state) in
    let late = d.valid && due now d.expires_at in
    let step = gateway_dhcp_step d now true in
    let x = read_options (length (drop 240 p)) no_options (drop 240 p) in
    if_cases (λ (r : ℤ × DhcpClient). r.0 ≡ pos 1 → Taken d p now o r.1) refused (negsuc 0, d)
      (if late then (negsuc 0, step) else receive_options d x p now) (λ _ h. cc h)
      (λ a.
        if_cases (λ (r : ℤ × DhcpClient). r.0 ≡ pos 1 → Taken d p now o r.1) late (negsuc 0, step)
          (receive_options d x p now) (λ _ h. cc h)
          (λ b.
            subst
              (λ y.
                (receive_options d y p now).0 ≡ pos 1
                → Taken d p now o (receive_options d y p now).1)
              (sym read)
              (λ h.
                Terms-Taken d p now o (take_reply d o (get32 p 16) now).1 (ground (arith, a)) b read
                  (take_reply-Terms d o (get32 p 16) now h))))

length-put32 : (n : ℕ) → length (put32 n) ≡ 4
unfolding put32
length-put32 n = refl

length-packet_header :
    (d : DhcpClient) (seconds : ℕ) → length d.mac ≡ 6 → length (packet_header d seconds) ≡ 240
unfolding packet_header put32
length-packet_header d seconds six = elim (Bool-cases d.valid) [
  | inl e ↦ rw e (omega (arith, length-append d.mac (replicate 202 0 ++ put32 0x63825363), six))
  | inr e ↦ rw e (omega (arith, length-append d.mac (replicate 202 0 ++ put32 0x63825363), six))
]

option_bound : (b : Bool) (option n : ℕ) → length (if b then option ∷ 4 ∷ put32 n else []) ≤ 6
unfolding put32
option_bound true option n = omega arith
option_bound false option n = omega arith

length-packet_options :
    (d : DhcpClient) (type : ℕ) → length d.mac ≡ 6 → length (packet_options d type) ≤ 60
unfolding packet_options
length-packet_options d type six =
    let ask = type == 3 || type == 4 in
    let tail : List ℕ = 55 ∷ 6 ∷ 1 ∷ 3 ∷ 6 ∷ 51 ∷ 58 ∷ 59 ∷ 255 ∷ [] in
    let address : List ℕ = if ask && not d.valid then 50 ∷ 4 ∷ put32 (leased d) else [] in
    let server : List ℕ =
      if ask && (is_requesting d.state || type == 4) then 54 ∷ 4 ∷ put32 d.server else [] in
    omega (
      arith,
      six,
      option_bound (ask && not d.valid) 50 (leased d),
      option_bound (ask && (is_requesting d.state || type == 4)) 54 d.server,
      length-append d.mac (address ++ (server ++ tail)),
      length-append address (server ++ tail),
      length-append server tail,
    )

-- Every packet that is sent has three hundred bytes.
pub length-gateway_dhcp_packet :
    (d : DhcpClient) (cap now : ℕ)
    → length d.mac ≡ 6
    → d.send_type ≢ 0
    → 300 ≤ cap
    → length (gateway_dhcp_packet d cap now).0 ≡ 300
unfolding gateway_dhcp_packet
length-gateway_dhcp_packet d cap now six some_type fits =
    let type = d.send_type in
    let noted =
      if type == 3 && not d.have_request
      then record d { requested_at = now; have_request = true }
      else d in
    let seconds = min (sub32 now d.started / 1000) 65535 in
    let bytes = packet_header noted seconds ++ packet_options noted type in
    let pad : List ℕ = replicate (300 - length bytes) 0 in
    let mac : length noted.mac ≡ 6 = ground (arith, six) in
    let e : (type == 0 || ltb cap 300) ≡ false = ground (arith, some_type, fits) in
    ap (λ (x : List ℕ × DhcpClient). length x.0) (if_else _ _ _ e)
    ∙ omega (
      arith,
      length-append bytes pad,
      length-replicate {A = ℕ} (300 - length bytes) 0,
      length-append (packet_header noted seconds) (packet_options noted type),
      length-packet_header noted seconds mac,
      length-packet_options noted type mac,
    )
