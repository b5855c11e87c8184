-- ===== src/Lib.antt =====
-- The model of ffmpeg-wasi, the engine behind afmpeg: a driver over FFmpeg's libraries that runs one
-- JSON job and exits. The job comes in as an argument of `main` (src/driver.c), which hands it to one
-- of the operations; `op_process` (src/process.c) and `op_frames` (src/frames.c) read inputs through
-- libav, and in the native build all of the media goes over a socket to the host (src/nativeio.c).
--
-- Which file models which part. Paths of sources are from the repository's root.
--   Base              numbers, integers with the int64_t range, lists, C strings, strtol and strtoll
--   Av                error codes, media types and results, as src/*.c take them from libav
--   SpecOpts          src/specopts.c: spec_option_in_bounds
--   Progress          src/progress.c: an emitter's state and its operations (Emitter), what a whole job
--                     puts on the channel (Throttle, Totals)
--   Native.Codec      src/nativeio.c: put32, put64, get32, get64
--   Native.Socket     rd_full, wr_full, afio_fail over a socket that delivers and accepts in pieces
--   Native.Avio       afio_read, afio_write, afio_seek; what a call that succeeds has exchanged (Errors), and
--                     what they return against a host that answers (Exchange)
--   Native.Dial       afio_set_timeouts, afio_dial_at, afio_dial and the statics afio_agreed and
--                     afio_announce; falling back to version 1 (Degrade), the handshake (Opened)
--   Native.Url        afio_session, afmpeg_url_open, _check, _move and _delete (Confirmed)
--   Native.Files      afio_ipc_open, afio_ipc_close, the child files of a muxer, afio_open_output,
--                     afio_close_output and afio_write_file (Reported)
--   Native.Concat     concat_quote, the playlist of afio_open_concat_ipc, and how an ffconcat
--                     reader takes it (Reading); pl_read and pl_seek (Memory)
--   Process.Timestamps  src/process.c: ts_add, ts_sub, median3
--   Process.Mux       mux_fixup_ts and pmux: one packet (Accepts), all packets of an output (Sequence)
--   Process.MapSpec   scan_index, parse_input_pad, parse_map_stream (Index, Grammar), resolve_map_stream
--                     (Resolve), label_matches and find_output_for_pad (Labels)
--   Process.Window    job_seek_offset_us, out_cutoff_us, the demuxer's cutoff (Demux), the windows of
--                     write_copy_pkt (Copy), write_sub_pkt (Subtitle), copy_chapters (Chapter), and
--                     the duration for the progress channel (Duration)
--   Process.Lanes     check_encodable_map (Encodable), add_copy_descriptors (Filled, Valid), input_is_spent
--                     (Spent)
--   Process.Graph     the pads and sinks of the filter graph: push_frame (Push, Rebase), feed and the
--                     flush of an input's decoders (Feed, Closing), drain_encoder (Encode), pull_sinks
--                     (Sinks, Bounded)
--   Process.Spec      spec_seconds, opts_from_json and open_encoder_opts (Options, Assigned), parse_output
--                     and the loop over `outputs` (Outputs, Accepted, Several)
--   Process.Inputs    open_one_input, open_concat_input, the loop over `inputs` with their seeks, and the
--                     one that closes them (Held, Released)
--   Process.Setup     build_default_graph (Default), add_buffersrc (Sources), add_buffersink (Sinks),
--                     open_encoder (Encoders), and the set-up of the graph in op_process (Whole); what
--                     it leaves (Wired, Routed, Ready)
--   Process.Streams   setup_copy_stream and setup_sub_stream (Faithful)
--   Process.Metadata  copy_chapters, stream_meta_for, apply_stream_metadata and apply_output_metadata, with
--                     meta_apply_tags of src/meta.c (Entered, Routed)
--   Process.Headers   the loop of op_process that opens the outputs and writes their headers, and the one
--                     that closes them (Closed)
--   Process.Copying   write_copy_pkt, copy_one, copy_packet, flush_copy_bsfs (Offsets)
--   Process.Subs      write_sub_pkt, sub_packet and the flush of the subtitle decoders
--   Process.Run       the demux loop of op_process over an interface of lanes, what follows it, and the
--                     exit code; the loop as a machine (Machine), its end (Ends, Ended), the trailers
--                     (Trailers)
--   Process.Engine    the job that fills that interface with the lanes of Process.Graph, Process.Copying
--                     and Process.Subs (Pads, Shut)
--   Frames.Template   src/frames.c: template_int_conversions (Sound, Grammar)
--   Frames.Grab       expand_path, write_frame, emit_one, grab_at, grab_scene (Watched, Numbered)
--   Frames.Select     parse_select and the cap of op_frames (Bounded)
--   Driver            src/driver.c: add_names (Names), main with the version gate (Main)
--   Meta              src/meta.c: meta_add_disposition and meta_disposition_from_json (RoundTrip)
--   Sandbox           src/sandbox.c: sandbox_install, and the calls that it makes (Floor)
--
-- How state is modelled. An `int64_t` is an integer, with AV_NOPTS_VALUE at its least value; sums that
-- the code writes plainly are true sums, and theorems say where they stay in range. A C string is the
-- list of its bytes before the NUL. The arrays of a job are lists up to their counts. A socket is
-- what it will still deliver, how much each send to come will take, what was sent, and whether
-- it was shut down. The statics of src/nativeio.c are fields of a record that a dial takes and gives
-- back. An `int` that is -1 for "none" is an option.
--
-- Fuel. rd_full and wr_full move one byte at least in each round, so the number of bytes asked for is
-- fuel enough, and the theorems on them hold with no condition on it. template_int_conversions takes a
-- byte at least in each round and has the length of the text and one; its theorem covers every
-- accepted text. `drain`, which stands for a reader of the playlist, has its length and one too.
-- pull_sinks asks a sink for frames until it has none, and a filter can go on for ever: its loop takes
-- fuel for each sink, and the theorem of Bounded says how much is enough where every output has a
-- window. The demux loop takes fuel for its rounds, and the theorem of Ended says how much is enough
-- where the packets still to be read are bounded. The loop of emit_one writes a frame in each turn,
-- so the number of frames below the cap bounds it.
-- Every other function is by structural recursion.
--
-- How libav is modelled. Its objects are one state, of a type that is a parameter, and each call is a
-- function on it. A decoder, an encoder or a bitstream filter that is drained in a loop answers with a
-- finite list and the code that ended the loop. A function whose state no caller looks at after an
-- error answers with the error alone; copy_one and the functions of src/frames.c, which go on after
-- some errors, answer with the state as well, and so do those that open what op_process closes at its
-- end. Allocations succeed.
--
-- What is a parameter: the arithmetic on time bases (av_rescale_q, av_cmp_q, av_inv_q,
-- av_packet_rescale_ts), the calls on decoders, encoders, filters, demuxers and muxers,
-- av_find_best_stream (with its promise to answer with a stream of the type asked for), the accessors of
-- cJSON, cJSON_ParseWithOpts, dictionaries (with what libav documents of av_dict_set, av_dict_get and
-- av_dict_copy), the opening and closing of a demuxer (an open that fails leaves nothing open), the
-- parser and the calls of libavfilter, snprintf, doubles, the bits of AV_DISPOSITION_* (different ones),
-- and what open, write, connect, read, send and the kernel answer. pull_sinks takes collect_analysis as
-- one.
--
-- What is not modelled: in src/process.c collect_analysis, report_spent_input and the JSON of the
-- result; in src/nativeio.c afio_open_input, afio_open_concat and afio_close_input; in src/frames.c what
-- opens the input, the graph and the encoder; the JSON that src/driver.c prints, and meta_add_tags of
-- src/meta.c. cJSON under src/third_party is another project's library; build/, internal/ and tools/
-- hold build scripts, shims and tests.
pub mod Base
pub mod Av
pub mod SpecOpts
pub mod Progress
pub mod Native
pub mod Process
pub mod Frames
pub mod Driver
pub mod Meta
pub mod Sandbox
