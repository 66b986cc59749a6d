-- ===== src/Lib.antt =====
-- Models of the firmware of a CAN logger on Zephyr, and what is proved of them.
--
-- The program has five applications under apps/. usb_cdc has the protocol CLP (clp_proto.c) and
-- carries it over USB (usb_link.c); can_logger carries it over a UART (clp_uart.c), between a CAN bus
-- and a host. flash_log writes CAN frames to a file, eth_doip answers the diagnostics protocol DoIP,
-- and gpio_timer has the buttons and LEDs that start and stop a capture, and its periodic tick.
--
-- Base: shared helpers: results with the errno values, bytes and lists, Boolean tests, the
-- integers that a payload holds, and the byte order helpers of Zephyr (a parameter, with laws).
-- Zephyr: the other parts of Zephyr that the sources call, as parameters: the streaming COBS codec
-- and crc16_ccitt (Zephyr), the ring buffer (Zephyr.RingBuf), the frame flags of the CAN driver and
-- the message queue (Zephyr.Can). Their laws are the documented behaviour: byte order helpers are
-- inverse, COBS decodes what it has encoded and its zero byte ends a frame, the ring buffer is a
-- queue of bytes of a fixed capacity, the flags are bits of their own, and the message queue is a
-- queue. The laws of a stream socket are in Doip.Server.Receive. Zephyr.Calls has calls of a driver or
-- a stack in turn until one fails, with which the set-ups are compared.
-- Clp: apps/usb_cdc/src/clp_proto.c and apps/usb_cdc/include/clp_proto.h. Types has the data,
-- Encode the clp_encode_ functions, Decode the clp_decode_ functions, Parser the parser, whose
-- steps return the messages handed to the callback. Decode.Exact has the decoders as the inverse of
-- the encoders, EndToEnd composes them, and SelfTest is the self-test in apps/usb_cdc/src/main.c.
-- Link: Ring has the statements on the outgoing ring that the two transports share, Uart is
-- apps/can_logger/src/clp_uart.c, Usb is apps/usb_cdc/src/usb_link.c. What the hardware FIFO gives
-- and takes in a round of an interrupt handler is an argument. Sender is the interface that both
-- fill: a sender of messages to which events happen, with its laws, and what a host hears of it.
-- Uart.Channel, Uart.Service and Uart.Refine fill it for the UART, Usb.Events, Usb.Push,
-- Usb.Service and Usb.Channel for USB, where the host comes and goes. Usb.Device is
-- apps/usb_cdc/src/usbd_ctx.c, and Usb.Main is main of apps/usb_cdc/src/main.c.
-- Logger: apps/can_logger. CanIface is src/can_iface.c, Flags and App are src/main.c: the
-- translation of the flags, and the interrupt, the pump thread and the host's requests around
-- one queue. Wanted tells the frames that are to come out without the code's helpers.
-- App.Actions has what can happen as a sequence of events, App.OnBus and App.Relay follow a
-- frame from the bus to the link, App.Capture through CanIface, App, Link.Uart and Clp to a
-- host, App.Host a request of the host to the driver, and App.Acks its acknowledgement back to
-- the host. App.Report is what the status report says of the losses and of the requests.
-- Flash: apps/flash_log/src/flash_log.c. Record has the on-disk format with a reader of it, Log the
-- ring, the writer and the file: Log.Events has what can happen while a file is open, Log.Session and
-- Log.Stop whole sessions, Log.Whole those in which the ring has room for everything, and
-- Log.Failure the loop that writes when the file system fails. The file
-- system is a parameter; Flash.Log.Drain.TakesAll says that it takes every write whole. Main is
-- apps/flash_log/src/main.c, with the clock and the rounds of the writer as arguments.
-- Doip: apps/eth_doip/src/doip.c and apps/eth_doip/include/doip.h. Message has headers and
-- answers, Udp and Tcp the two handlers, Uds the diagnostic services. size_t has 32 bits there, as
-- on the target. Server is apps/eth_doip/src/doip_server.c; Server.Client has the reference that
-- works on the bytes of the whole stream. SelfTest is apps/eth_doip/src/main.c.
-- Gpio: apps/gpio_timer: IoControl is src/io_control.c, LogTimer src/log_timer.c, Capture
-- src/main.c, as one system of events.
-- Examples: a byte order, a COBS codec, a ring buffer, a file system, a socket, a message queue and
-- driver flags that can be run and have the laws, and the theorems at concrete inputs.
--
-- Static variables of a file are one record, and a function returns the new record beside its
-- result. Numbers are natural numbers; counters wrap at 2^32 and sequence numbers at 2^8, as their
-- types do. The functions of a file are taken to run one after the other: interrupts and threads are
-- events between them. Loops are structural, but for four on fuel: the receive loop of the UART
-- (Link.Uart.rx_drain), the loop that writes the ring to the file (Flash.Log.drain), and recv_loop
-- and client_loop of Doip.Server. Each takes at least one byte out of its ring or its stream in a
-- round, so one more than the bytes there are is enough, which is proved.
--
-- Not modelled: the host tools under host/, which are Python programs. Log output,
-- delays, the priorities of threads and the name of a log file are left out, and so is the
-- self-transmission of the CAN logger at boot, which is compiled out.
pub mod Base
pub mod Clp
pub mod Doip
pub mod Examples
pub mod Flash
pub mod Gpio
pub mod Link
pub mod Logger
pub mod Zephyr
