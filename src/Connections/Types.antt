-- ===== src/Connections/Types.antt =====
-- common/packet.h: the types of the packets that the server sends.
use Prim.Native.Nat.{ℕ}

abbrev pub pkt_message : ℕ
pkt_message = 5

abbrev pub pkt_start : ℕ
pkt_start = 6

abbrev pub pkt_end : ℕ
pkt_end = 7

abbrev pub pkt_self : ℕ
pkt_self = 8

abbrev pub pkt_damaged : ℕ
pkt_damaged = 9

abbrev pub pkt_connector : ℕ
pkt_connector = 10

abbrev pub pkt_refuel : ℕ
pkt_refuel = 11

abbrev pub pkt_ship : ℕ
pkt_ship = 12

abbrev pub pkt_ball : ℕ
pkt_ball = 17

abbrev pub pkt_shutdown : ℕ
pkt_shutdown = 19

abbrev pub pkt_destruct : ℕ
pkt_destruct = 21

abbrev pub pkt_radar : ℕ
pkt_radar = 22

abbrev pub pkt_seek : ℕ
pkt_seek = 25

abbrev pub pkt_player : ℕ
pkt_player = 28

abbrev pub pkt_score : ℕ
pkt_score = 29

abbrev pub pkt_fuel : ℕ
pkt_fuel = 30

abbrev pub pkt_base : ℕ
pkt_base = 31

abbrev pub pkt_leave : ℕ
pkt_leave = 33

abbrev pub pkt_war : ℕ
pkt_war = 40

abbrev pub pkt_fastradar : ℕ
pkt_fastradar = 44

abbrev pub pkt_score_object : ℕ
pkt_score_object = 49

abbrev pub pkt_time_left : ℕ
pkt_time_left = 53

abbrev pub pkt_eyes : ℕ
pkt_eyes = 56

abbrev pub pkt_modifiers : ℕ
pkt_modifiers = 68

abbrev pub pkt_fastshot : ℕ
pkt_fastshot = 69

abbrev pub pkt_wreckage : ℕ
pkt_wreckage = 79

abbrev pub pkt_debris : ℕ
pkt_debris = 128
