-- ===== src/Server/Code.antt =====
-- SysPro_Project3/src/messages.h: the codes of the messages.
use systems_programming.Base.{ℕ}

abbrev pub ok : ℕ
ok = 0

abbrev pub log_on : ℕ
log_on = 1

abbrev pub log_off : ℕ
log_off = 2

abbrev pub get_clients : ℕ
get_clients = 3

abbrev pub get_file_list : ℕ
get_file_list = 4

abbrev pub get_file : ℕ
get_file = 5

abbrev pub user_off : ℕ
user_off = 6

abbrev pub user_on : ℕ
user_on = 7

abbrev pub file_list : ℕ
file_list = 8

abbrev pub file_not_found : ℕ
file_not_found = 9

abbrev pub file_up_to_date : ℕ
file_up_to_date = 10

abbrev pub client_list : ℕ
client_list = 11

abbrev pub file_size : ℕ
file_size = 12

abbrev pub ip_port_not_found : ℕ
ip_port_not_found = 13

abbrev pub succ_log_off : ℕ
succ_log_off = 14
