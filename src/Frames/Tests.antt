-- ===== src/Frames/Tests.antt =====
-- A concrete template for src/frames.c.
use ffmpeg_wasi.Base.{◌≡◌, ◌↔◌, some}
use ffmpeg_wasi.Base.Text.{codes}
use ffmpeg_wasi.Frames.Template.{template_int_conversions}
use ffmpeg_wasi.Frames.Template.Sound.{IsTemplate}
use ffmpeg_wasi.Frames.Template.Grammar.{template_int_conversions_iff}

template_int_conversions_iff_example :
    (template_int_conversions (codes "f_%03d.png") ≡ some 1) ↔ IsTemplate (codes "f_%03d.png") 1
template_int_conversions_iff_example = template_int_conversions_iff (codes "f_%03d.png") 1
