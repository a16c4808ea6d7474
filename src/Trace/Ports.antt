-- ===== src/Trace/Ports.antt =====
-- lib/trace.c, trace_get_server_port: which of two ports is the server's.
use odp_libtrace.Prelude.{ℕ, ◌≡◌, arith, Bool, not, ◌&&◌, ◌||◌, ltb, leb, ◌==◌, if◌then◌else◌}

pub data Side : Type 0 where
  use_source : Side
  use_dest : Side

-- The macros.
abbrev pub root_server : ℕ → Bool
root_server x = ltb x 512

abbrev pub root_client : ℕ → Bool
root_client x = leb 512 x && ltb x 1024

abbrev pub nonroot_server : ℕ → Bool
nonroot_server x = leb 5000 x

abbrev pub nonroot_client : ℕ → Bool
nonroot_client x = leb 1024 x && ltb x 5000

abbrev pub dynamic : ℕ → Bool
dynamic x = ltb 49152 x && ltb x 65535

-- `if (source < dest) return USE_SOURCE; return USE_DEST;`
abbrev pub smaller : ℕ → ℕ → Side
smaller source dest = if ltb source dest then use_source else use_dest

unfoldable pub server_port : ℕ → ℕ → Side
server_port source dest =
    if source == dest
    then use_dest
    else if root_server source && root_server dest
    then smaller source dest
    else if root_server source && not (root_server dest)
    then use_source
    else if not (root_server source) && root_server dest
    then use_dest
    else if nonroot_server source && nonroot_server dest
    then smaller source dest
    else if nonroot_server source && not (nonroot_server dest)
    then use_source
    else if not (nonroot_server source) && nonroot_server dest
    then use_dest
    else if root_client source && root_client dest
    then smaller source dest
    else if root_client source && not (root_client dest)
    then (if nonroot_client dest then use_source else use_dest)
    else if not (root_client source) && root_client dest
    then (if nonroot_client source then use_dest else use_source)
    else if nonroot_client source && nonroot_client dest
    then smaller source dest
    else if nonroot_client source && not (nonroot_client dest)
    then use_dest
    else if not (nonroot_client source) && nonroot_client dest
    then use_source
    else if dynamic source && dynamic dest
    then smaller source dest
    else if dynamic source && not (dynamic dest)
    then use_dest
    else if not (dynamic source) && dynamic dest
    then use_source
    else smaller source dest

-- The classes of ports, the likeliest server first.
pub class : ℕ → ℕ
class x = if ltb x 512 then 0 else if leb 5000 x then 1 else if ltb x 1024 then 2 else 3

-- The source is the server exactly if its class is likelier, or its class is the same and its number
-- is smaller: the tests for dynamic ports decide nothing.
pub server_port-class :
    (source dest : ℕ)
    → server_port source dest ≡ (
        if ltb (class source) (class dest) || ((class source == class dest) && ltb source dest)
        then use_source
        else use_dest)
unfolding server_port class
server_port-class source dest = ground arith
