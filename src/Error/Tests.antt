-- ===== src/Error/Tests.antt =====
-- Runs of src/error.rs.
use node_serialport_rs.Prelude.{◌≡◌, refl}
use node_serialport_rs.Io.{ErrorKind, io_error}
use node_serialport_rs.Error.{details, invalid}

details_keep_message :
    (details (io_error ErrorKind.other "driver detail")).message ≡ "driver detail"
unfolding details
details_keep_message = refl

details-invalid : (details (invalid "Invalid dataBits")).code ≡ "ERR_SERIALPORT_INVALID_ARGUMENT"
unfolding details invalid
details-invalid = refl
