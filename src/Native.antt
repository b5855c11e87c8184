-- ===== src/Native.antt =====
-- src/nativeio.c: the media-I/O bridge of the native build, a framed protocol over a socket.
mod Tests
pub mod Codec
pub mod Socket
pub mod Avio
pub mod Dial
pub mod Concat
pub mod Url
pub mod Files
