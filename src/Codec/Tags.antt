-- ===== src/Codec/Tags.antt =====
-- src/codec.rs, lines 6 to 31: the ASN.1 tags.
use rusnmp.Prelude.{ℕ}

abbrev pub tag_integer : ℕ
tag_integer = 0x02

abbrev pub tag_octet_string : ℕ
tag_octet_string = 0x04

abbrev pub tag_null : ℕ
tag_null = 0x05

abbrev pub tag_oid : ℕ
tag_oid = 0x06

abbrev pub tag_sequence : ℕ
tag_sequence = 0x30

abbrev pub tag_ipaddress : ℕ
tag_ipaddress = 0x40

abbrev pub tag_counter32 : ℕ
tag_counter32 = 0x41

abbrev pub tag_gauge32 : ℕ
tag_gauge32 = 0x42

abbrev pub tag_timeticks : ℕ
tag_timeticks = 0x43

abbrev pub tag_opaque : ℕ
tag_opaque = 0x44

abbrev pub tag_counter64 : ℕ
tag_counter64 = 0x46

abbrev pub tag_no_such_object : ℕ
tag_no_such_object = 0x80

abbrev pub tag_no_such_instance : ℕ
tag_no_such_instance = 0x81

abbrev pub tag_end_of_mib_view : ℕ
tag_end_of_mib_view = 0x82

abbrev pub pdu_get : ℕ
pdu_get = 0xA0

abbrev pub pdu_getnext : ℕ
pdu_getnext = 0xA1

abbrev pub pdu_response : ℕ
pdu_response = 0xA2

abbrev pub pdu_set : ℕ
pdu_set = 0xA3

abbrev pub pdu_getbulk : ℕ
pdu_getbulk = 0xA5
