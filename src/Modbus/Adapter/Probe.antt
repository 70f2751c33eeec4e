-- ===== src/Modbus/Adapter/Probe.antt =====
-- What the frame probe of src/modbus/modbus_tcp_adapter.c accepts.
use moxa_4vrs_gateway.Prelude.{
  ℕ, ◌+◌, ◌-◌, ◌≤◌, bit_or, ◌≡◌, ◌⊎◌, Option, some, List, arith, length, get_or, take,
}
use moxa_4vrs_gateway.Modbus.Crc.{crc16}
use moxa_4vrs_gateway.Modbus.Adapter.{
  complete, modbus_rtu_frame_probe, probe_expected, crc_at, rtu_adu_max,
}

abbrev pub Checked : List ℕ → Type 0
Checked frame = crc16 (take (length frame - 2) frame) ≡ crc_at frame (length frame - 2)

-- A complete answer is from the unit that was asked, to the function that was asked or an exception
-- to it, and its length is the one reported.
pub record Accepted (request response : List ℕ) (expected : Option ℕ) : Type 0 where
  pub unit : get_or response 0 0 ≡ get_or request 0 0
  pub function :
      (get_or response 1 0 ≡ get_or request 1 0)
      ⊎ (get_or response 1 0 ≡ bit_or (get_or request 1 0) 0x80)
  pub checked : Checked response
  pub reported : expected ≡ some (length response)
  pub bounded : length response ≤ rtu_adu_max

probe_expected_lem :
    (response : List ℕ) (expected : ℕ)
    → (probe_expected response expected).0 ≡ complete
    → Checked response × ((probe_expected response expected).1 ≡ some (length response))
unfolding probe_expected
probe_expected_lem response expected e = ground arith

-- The frame probe calls an answer complete only if it is accepted: from the unit and to the function
-- that was asked, with the right check value, and of the length that the probe reports.
pub modbus_rtu_frame_probe-Accepted :
    (request response : List ℕ)
    → (modbus_rtu_frame_probe request response).0 ≡ complete
    → Accepted request response (modbus_rtu_frame_probe request response).1
unfolding modbus_rtu_frame_probe
modbus_rtu_frame_probe-Accepted request response e = ground (
  arith,
  probe_expected_lem response 5,
  probe_expected_lem response 8,
  probe_expected_lem response (5 + get_or response 2 0),
)
