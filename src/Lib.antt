-- ===== src/Lib.antt =====
-- The STICKER firmware (app/src), a battery-powered LoRaWAN and P2P sensor node on Zephyr.
--
-- A report cycle (app_report.c) runs on a grid of wall-clock slots (app_slot.c), whose clock is the
-- RTC (app_clock.c). The cycle saves the pulse totalizers (app_counters.c), samples the sensors,
-- captures a history record and hands a telemetry snapshot to the radio, whose frames are protected
-- by AES-CCM and AES-CMAC (app_ccm.c). Configuration arrives over NFC as NDEF (app_nfc_parser.c) or
-- by radio. The P2P radio (app_radio_p2p.c) sends sealed frames with counters, acknowledgements and
-- a replay lane, within the duty-cycle ledger of app_radio.c. Alarm rules (app_alarm_rules.c) live in the configuration and refer to channels of the
-- sensor type registry (app_sensor_types.c).
--
-- Which file models which part:
--
--   Base                 shared helpers: Boolean tests, lists with native lengths, bits, widths,
--                        error numbers, and C's signed division
--   Ccm                  app/src/app_ccm.c, a section over the block cipher. Functions have the C
--                        names without `app_ccm_`; a buffer is the list of its bytes
--   Slot                 app/src/app_slot.c: `round` is app_slot_round, `next` is app_slot_next, and
--                        its parts `lay`, `periodic_run` and `arm` are the branches of it
--   Ndef                 app/src/app_nfc_parser.c: `run` is app_nfc_parser_run
--   Input                app/src/app_input.c: `poll` is poll_impl, and Pulses the interrupts and polls
--                        of a signal
--   Counters             app/src/app_counters.c, with the answers of the settings store as arguments
--   Clock                app/src/app_clock.c, with the answers of the RTC driver as arguments
--   Report               app/src/app_report.c: `run_report` gives the calls of a cycle in order;
--                        Report.Queue is the timer and the three work items as a state machine
--   SensorTypes          app/src/app_sensor_types.c and .h: the tables and the lookups
--   AlarmRules           app/src/app_alarm_rules.c: Rule is validity and staleness, Pack the codec,
--                        Store the rules by index, Float the comparisons of binary32 values
--   Alarm                app/src/app_alarm.c: Latch is the state of a rule, Threshold, State and Rate
--                        are the three evaluations, NoData the watchdog of one input, and Poll one
--                        rule in app_alarm_poll and in app_alarm_event
--   History              app/src/app_history.c, the RAM ring: Ram is its backend_ functions, where
--                        `append` is `open_segment` and then `store`; Segments is the table,
--                        and Views the segments as ranges of record ordinals
--
--   P2p                  app/src/app_radio_p2p.c: Frame is the TOWER codec (`seal` is twr_seal,
--                        `unseal` twr_open), Node the m_ variables with the frame counter and the
--                        pairing, Nonce the counters as a state machine over frames, pairings and
--                        restarts, Fsk the packets of the fsk profile, Exchange p2p_exchange with
--                        its receptions, Tlv the walk of a control list, Control what the list
--                        does, Join the keys and frames of the join with Join.Attempt one attempt
--                        of either profile, and Retry the work item that tries again
--   Radio                app/src/app_radio.c: Duty is the duty-cycle ledger (`charge` is
--                        app_radio_ledger_charge, `wait_ms` is app_radio_ledger_wait_ms), Link the
--                        link supervision (`link_result` is app_radio_link_result), and Link.Stale
--                        the stale-uplink policy
--
-- State is passed explicitly, an operation returns its status and the new state, and a status is
-- `Ret`: ok or an error number. Numbers are native; a wrap at 2^8, 2^16 or 2^32 is written out, and
-- int32_t values are integers (Base.Int).
--
-- Fuel: the message loop of the CBC-MAC and the counter-mode loop take the length of their input
-- (plus one) as a bound of the rounds, and each round takes at least one byte; the two loops of the
-- NDEF parser and the walk of a control list take the bytes left plus one. Other loops are
-- structural, over a list or an index.
--
-- What is not in the sources is a parameter: the block cipher (a function on a key and a block, of
-- 16-byte output), the callback of the NDEF parser, the arithmetic of floats, what the settings
-- store delivers and answers, what the RTC driver answers, the CRC of the fsk packets, and in an
-- exchange the frames that are received and the answers of the modem and of the duty ledger. A write
-- to the settings store that fails leaves the entry that it would replace, and a restart delivers
-- what the store holds. A work item that is submitted twice runs once, as Zephyr documents.
--
-- Not modelled: of the alarm engine, the event batch, the other watchdogs and the active mask; of
-- the history, the flash ring, the time windows and the capture; of the P2P radio, the control
-- list that the node sends, the composition of a report and the times of the windows; of the radio
-- facade, the transmit queue, the telemetry frames and the flash hold; the LoRaWAN radio, the
-- command and telemetry codecs, 1-Wire, and the sensor drivers. Shell commands, logging, locks and
-- device I/O are left out.
pub mod Base
pub mod Ccm
pub mod Slot
pub mod Input
pub mod Ndef
pub mod Counters
pub mod Clock
pub mod Report
pub mod SensorTypes
pub mod AlarmRules
pub mod Alarm
pub mod History
pub mod P2p
pub mod Radio
