-- ===== src/ClientList/Tests.antt =====
-- Two clients on one host.
use systems_programming.ClientList.{ClientTuple}

abbrev first : ClientTuple
first = record { ip_address = 16777343; port_num = 8080 }

abbrev second : ClientTuple
second = record { ip_address = 16777343; port_num = 8081 }
