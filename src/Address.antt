-- ===== src/Address.antt =====
-- bacpypes3/pdu.py, the station addresses that the network layer reads and writes: class Address
-- by its `addrType`, and the constructors RemoteStation, RemoteBroadcast and GlobalBroadcast.
--
-- `addrRoute` and `addrNetworkType`, which no codec reads, are left out, and so is the parsing
-- and printing of addresses.
use bacpypes.Prelude.{ℕ, leb}
use bacpypes.Pdu.{Bytes, Action, pure, raise_if, value_error, ◌>>◌}

pub data Address : Type 0 where
  null_address local_broadcast global_broadcast : Address
  local_station : Bytes → Address
  remote_station : ℕ → Bytes → Address
  remote_broadcast : ℕ → Address

-- `RemoteStation(net, addr)` with the octets of a station, and `RemoteBroadcast(net)`.
unfoldable pub new_remote_station : ℕ → Bytes → Action Address
new_remote_station net addr = do
  raise_if (leb 65535 net) value_error
  pure (remote_station net addr)

unfoldable pub new_remote_broadcast : ℕ → Action Address
new_remote_broadcast net = do raise_if (leb 65535 net) value_error; pure (remote_broadcast net)
