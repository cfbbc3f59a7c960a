-- ===== src/Presentation.antt =====
-- packages/tui/src/presentation: the surfaces over the composer.
pub mod SurfaceHost
