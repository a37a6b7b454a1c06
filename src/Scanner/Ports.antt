-- ===== src/Scanner/Ports.antt =====
-- The ports that are tried and their names, internal/scanner/ports.go and portMeta of scanner.go.
use ahlyx_labs.Common.{
  ℕ, Bool, true, false, Option, none, some, List, [], ◌∷◌, ◌++◌, map, Bytes, str, ◌==◌,
  if◌then◌else◌, show_decimal,
}

-- The map OTPorts, in one of the orders in which it may be read.
unfoldable pub ot_ports : List (ℕ × Bytes)
ot_ports =
    (102, str "S7comm (Siemens S7 PLCs)")
    ∷ (502, str "Modbus")
    ∷ (1089, str "FF Annunciation")
    ∷ (1090, str "Foundation Fieldbus")
    ∷ (1091, str "FF System Management")
    ∷ (1962, str "PCWorx (Phoenix Contact)")
    ∷ (2222, str "EtherNet/IP")
    ∷ (4000, str "Emerson DeltaV")
    ∷ (4840, str "OPC-UA")
    ∷ (9600, str "OMRON FINS")
    ∷ (18245, str "GE SRTP")
    ∷ (20000, str "DNP3")
    ∷ (44818, str "EtherNet/IP")
    ∷ (47808, str "BACnet")
    ∷ []

unfoldable pub common_tcp_ports : List ℕ
common_tcp_ports =
    21 ∷ 22 ∷ 23 ∷ 25 ∷ 53 ∷ 80 ∷ 110 ∷ 135 ∷ 139 ∷ 143 ∷ 443 ∷ 445 ∷ 512 ∷ 513 ∷ 514 ∷ 1433 ∷ 1521
    ∷ 3306 ∷ 3389 ∷ 5432 ∷ 5900 ∷ 6379 ∷ 8080 ∷ 8443 ∷ 9200 ∷ 27017 ∷ []

-- CommonPorts, as init makes it when the map is read in the given order.
unfoldable pub common_ports : List (ℕ × Bytes) → List ℕ
unfolding common_tcp_ports
common_ports read = common_tcp_ports ++ map (λ e. e.0) read

ot_name : List (ℕ × Bytes) → ℕ → Option Bytes
ot_name [] port = none
ot_name (e ∷ es) port = if e.0 == port then some (e.1) else ot_name es port

it_name : ℕ → Bytes
it_name port =
    if port == 21
    then str "FTP"
    else if port == 22
    then str "SSH"
    else if port == 23
    then str "Telnet"
    else if port == 80
    then str "HTTP"
    else if port == 443
    then str "HTTPS"
    else if port == 8080
    then str "HTTP-Alt"
    else if port == 8443
    then str "HTTPS-Alt"
    else str "port/" ++ show_decimal port

unfoldable pub port_meta : ℕ → Bytes × Bool
unfolding ot_ports ot_name it_name
port_meta port = elim (ot_name ot_ports port) [
  | some name ↦ (name, true)
  | none ↦ (it_name port, false)
]
