-- ===== src/Status.antt =====
-- src/status: the result codes (`qas_status` of status.h) that the fallible operations return.

pub data Status : Type 0 where
  ok out_of_memory io_error invalid_argument not_found : Status
  value_overflow lex_error parse_error encode_error unsupported : Status
