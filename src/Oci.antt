-- ===== src/Oci.antt =====
-- pkg/oci: image references, the interface of the image store (pkg/oci/oci.go), and the client of
-- containerd, and the configuration of its mirrors.
pub mod Image
pub mod Client
pub mod Containerd
pub mod MirrorConfig
pub mod Mock
