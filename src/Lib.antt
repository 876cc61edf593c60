-- ===== src/Lib.antt =====
-- Firmware for a radio link, CAN and UDP upgrades and a bootloader, on Zephyr: the parts with logic
-- of their own, translated function by function, and what makes them correct.
--
-- The parts and how they interact
--   Crypt: drivers/nrf24l01p/nrf24_crypt.c. It enciphers the payloads of the nRF24 radio. `Crypt` is its
--     static state (key, two counters, a flag), `crypt_seal` and `crypt_open` are nrf24_crypt_seal and
--     nrf24_crypt_open, `set_key` and `rx_reset` the two set-up calls. Crypt.Stream treats the key
--     stream, Crypt.Window the receive window, Crypt.Link a sender and a receiver.
--   Handlers: the table of application callbacks that both upgrade libraries keep (`handlers[]` in
--     libs/can_fw_upgrade/can_fw_upgrade.c and libs/udp_fw_upgrade/udp_fw_upgrade.c).
--   CanFw: libs/can_fw_upgrade/can_fw_upgrade.c. `CanFw` is its static state, `rx_thread_step` one pass
--     of can_fw_rx_thread_fn, over handle_platform_rx, handle_keyhash_frame and handle_fw_data.
--     Unknown frames go to Handlers.
--   UdpFw: libs/udp_fw_upgrade/udp_fw_upgrade.c. `UdpFw` is its static state, `rx_thread_step` one pass
--     of udp_fw_rx_thread, over handle_fw_cmd (its cases are fw_cmd_start, fw_cmd_data, fw_cmd_end),
--     udp_fw_reply and fw_verify_crc. Unknown commands go to Handlers.
--   Boot: applications/stm32_bootloader. Boot.antt is src/fw_upgrade.c and the handler of src/fw_can.c;
--     Boot.Uart is src/fw_uart.c, whose frames end in the same fw_update; Boot.Reset is src/main.c.
--   Modbus: the registers of applications/data_collect/src/modbus/function.c, with the addresses of
--     init.h in Modbus.Idx. `Registers` is the three static arrays; Modbus.Settings is the
--     handlers by which the settings library saves and restores them.
--   FlashFs: drivers/flash/flashfs.c, a flash device over a file. `FlashFs` is struct flashfs_config
--     with the count of its semaphore.
--   Config: the commands of applications/data_collect that set and get its parameters, over UDP in
--     src/modbus/udp.c and over CAN in src/can.c (Config.Can). Both work on the holding registers of
--     Modbus; `dc_build_config_payload` gives the new registers, what is set off and the answer.
--   Radio: what applications/gateway/src/rf24.c and applications/mod_handler/src/rf24.c share: the
--     frames and the repeated sending, in both builds: with CONFIG_NRF24L01P_CRYPT the frames are
--     sealed and opened by Crypt (`seal_packet`, `open_packet`, `gw_rf24_send`); without it, as both
--     applications' prj.conf choose, they go in the clear (`plain_packet`, `open_plain`,
--     `gw_rf24_send_plain`). The same holds of the receiving threads of Gateway and Handset
--     (`rf24_rx_step`, `rf24_rx_step_plain`). Handset.Plain treats the link without encryption, all
--     other theorems on the radio link the encrypted one.
--   Gateway: applications/gateway/src: the host's commands and datagrams of udp.c, `rf24_rx_step`, one
--     pass of rf24_rx_thread in rf24.c, the answers of rf24_shell.c to test frames; Gateway.Led is
--     led.c, with a step relation over its work items. `Gateway` is the static state and the network
--     configuration. Commands come through UdpFw.
--   Handset: applications/mod_handler/src: the change of links, sleeping and waking of gpio.c and
--     common.c, the scanner's frames of can.c (Handset.Parse), the receiving thread and the signal
--     level of rf24.c (Handset.Signal). Sleeping and waking are each cut in two at their pause, so that
--     what comes in between is a step of its own (Handset.Power). Handset.Link puts the handset and the
--     gateway together.
--   Laser: applications/laser_ctrl/src: the registers of flash.c and the CAN commands of can.c.
--     Laser.Firmware is firmware.c. `Laser` is the static state with the flash and the serial line.
--   Ftp: applications/data_collect/src/ftp_server. `Session` is struct ftp_session; the commands of
--     ftp_cmds.c are in Ftp.Link (data connections), Ftp.Dirs and Ftp.Transfer, the paths in Ftp.Path.
--     Ftp.Handler is ftp_proccess of ftp_handler.c with the choice of a command, Ftp.Server the table of
--     sessions of ftpd.c. A result of none is a fault: a null pointer, or an array that nothing has set.
--   Nrf24: drivers/nrf24l01p/nrf24l01p.c, the driver below Radio. `Dev` is struct nrf24_data with the
--     bus; Nrf24.Setup has nrf24_configure, nrf24_power_enable and nrf24_init, Nrf24.Receive the thread
--     (`irq_pass` is one pass of it) and nrf24_recv, Nrf24.Send nrf24_send. Nrf24.Chip says what is
--     taken for granted of the chip.
--   Zephyr: what these use of the operating system: CAN frames, and as parameters the image writer with
--     its slot, and the codes of frame lengths. Zephyr.Ram is a slot in memory for the runs.
--   Common: Boolean tests, lists, machine words and binary digits.
--
-- How the code is read
--   A static variable is a field of the part's state; a handler takes the state and returns the new one
--   with a list of what it did (frames sent, requests to the bootloader, reboots, callbacks called).
--   One handler runs at a time: each library has one thread of its own, and what its queue drops is no
--   event. Machine integers are natural numbers with `% 2 ^ w` where the C type wraps. Byte arrays are
--   lists; a store behind an array is left out, and a theorem says where none happens or where one does.
--   Flash, sockets, the radio's driver (the record `Radio`), inet_pton and inet_ntop (`Inet`), the laser's
--   serial line and the checksum of Zephyr (crc16_ccitt of sys/crc.h) are parameters; what is taken for
--   granted of them stands in the records Works, Writes, Counts, Readable, Pages, Programs and Stores,
--   and in ReadsBack for the addresses in text. The FTP server's calls of the system are the record `Os`,
--   with Carries and Lists for transfers and directories; SPI, the pins of the radio and the queues
--   that its driver puts frames in are `Bus`, with Chip.
--
-- Bounds and fuel
--   A C loop is recursion on fuel that its caller sets: the plaintext's length in ctr_xor, the text's
--   length for the version text, the number of written bytes in fw_verify_crc, the number of bytes to
--   erase in the bootloader, the size of the transfer in flashfs, the length of the answer and one more
--   for the CAN answers of Config.Can. Each pass takes one byte at least, so none of these runs out. The
--   loop over a path has the path's length and one more. The sending loop of Radio counts its five
--   retries. XXTEA runs its 32 rounds, the serial checksum 8 rounds a byte.
--   The transfers of Ftp take fuel from their caller, and the theorems say how much is enough: a pass for
--   each byte of a file or each entry, and one more. The loop of Nrf24 over received frames takes it too;
--   its end depends on the chip.
--   A version text has at most 248 bytes (its offset is a uint8_t); the code makes at most 23.
--
-- Not modelled
--   Device set-up, logging, shells, the jump to the application (register writes), sockets beyond what is
--   sent and received. Of the gateway its settings and network set-up; of the handset its ADC, battery,
--   display and settings; of the laser controller the serial protocol of the laser; of data_collect the
--   HTTP and TCP servers, the history file, and of the FTP server its sockets, select and the idle time.
--   Of the radio's driver the pins and the dump of registers. The LCD, and the demos and simulators,
--   which repeat or only call these parts.
pub mod Common
pub mod Zephyr
pub mod Handlers
pub mod Crypt
pub mod CanFw
pub mod UdpFw
pub mod Boot
pub mod Modbus
pub mod FlashFs
pub mod Config
pub mod Radio
pub mod Gateway
pub mod Handset
pub mod Laser
pub mod Ftp
pub mod Nrf24
