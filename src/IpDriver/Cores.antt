-- ===== src/IpDriver/Cores.antt =====
-- The six cores of system/ip with a C driver, each with its functions by name.
use zynq_can_sja1000_top.Common.{ℕ}
use zynq_can_sja1000_top.IpDriver.{Bus, History, Status, mwrite_reg, mread_reg, reg_self_test}

-- `…_S00_AXI_SLV_REG0_OFFSET` and so on: the number of registers that the header names.
abbrev pub audio_single_pwm_registers : ℕ
audio_single_pwm_registers = 16

abbrev pub axi_pwm_coprocessor_registers : ℕ
axi_pwm_coprocessor_registers = 8

abbrev pub can_crossbar_registers : ℕ
can_crossbar_registers = 4

abbrev pub display_16bit_cmd_data_bus_registers : ℕ
display_16bit_cmd_data_bus_registers = 16

abbrev pub servo_led_ps2_registers : ℕ
servo_led_ps2_registers = 8

abbrev pub spi_leds_and_enc_registers : ℕ
spi_leds_and_enc_registers = 16

abbrev pub audio_single_pwm_write_reg : (base offset value : ℕ) → History → History
audio_single_pwm_write_reg = mwrite_reg

abbrev pub axi_pwm_coprocessor_write_reg : (base offset value : ℕ) → History → History
axi_pwm_coprocessor_write_reg = mwrite_reg

abbrev pub can_crossbar_write_reg : (base offset value : ℕ) → History → History
can_crossbar_write_reg = mwrite_reg

abbrev pub display_16bit_cmd_data_bus_write_reg : (base offset value : ℕ) → History → History
display_16bit_cmd_data_bus_write_reg = mwrite_reg

abbrev pub servo_led_ps2_write_reg : (base offset value : ℕ) → History → History
servo_led_ps2_write_reg = mwrite_reg

abbrev pub spi_leds_and_enc_write_reg : (base offset value : ℕ) → History → History
spi_leds_and_enc_write_reg = mwrite_reg

module _ (bus : Bus) where
  abbrev pub audio_single_pwm_read_reg : (base offset : ℕ) → History → ℕ × History
  audio_single_pwm_read_reg = mread_reg bus

  abbrev pub axi_pwm_coprocessor_read_reg : (base offset : ℕ) → History → ℕ × History
  axi_pwm_coprocessor_read_reg = mread_reg bus

  abbrev pub can_crossbar_read_reg : (base offset : ℕ) → History → ℕ × History
  can_crossbar_read_reg = mread_reg bus

  abbrev pub display_16bit_cmd_data_bus_read_reg : (base offset : ℕ) → History → ℕ × History
  display_16bit_cmd_data_bus_read_reg = mread_reg bus

  abbrev pub servo_led_ps2_read_reg : (base offset : ℕ) → History → ℕ × History
  servo_led_ps2_read_reg = mread_reg bus

  abbrev pub spi_leds_and_enc_read_reg : (base offset : ℕ) → History → ℕ × History
  spi_leds_and_enc_read_reg = mread_reg bus

  abbrev pub audio_single_pwm_self_test : (base : ℕ) → History → Status × History
  audio_single_pwm_self_test = reg_self_test bus

  abbrev pub axi_pwm_coprocessor_self_test : (base : ℕ) → History → Status × History
  axi_pwm_coprocessor_self_test = reg_self_test bus

  abbrev pub can_crossbar_self_test : (base : ℕ) → History → Status × History
  can_crossbar_self_test = reg_self_test bus

  abbrev pub display_16bit_cmd_data_bus_self_test : (base : ℕ) → History → Status × History
  display_16bit_cmd_data_bus_self_test = reg_self_test bus

  abbrev pub servo_led_ps2_self_test : (base : ℕ) → History → Status × History
  servo_led_ps2_self_test = reg_self_test bus

  abbrev pub spi_leds_and_enc_self_test : (base : ℕ) → History → Status × History
  spi_leds_and_enc_self_test = reg_self_test bus

pub data Core : Type 0 where
  audio_single_pwm : Core
  axi_pwm_coprocessor : Core
  can_crossbar : Core
  display_16bit_cmd_data_bus : Core
  servo_led_ps2 : Core
  spi_leds_and_enc : Core

-- The self test of a core, and the number of its registers.
abbrev pub self_test : Core → Bus → (base : ℕ) → History → Status × History
self_test audio_single_pwm bus = audio_single_pwm_self_test bus
self_test axi_pwm_coprocessor bus = axi_pwm_coprocessor_self_test bus
self_test can_crossbar bus = can_crossbar_self_test bus
self_test display_16bit_cmd_data_bus bus = display_16bit_cmd_data_bus_self_test bus
self_test servo_led_ps2 bus = servo_led_ps2_self_test bus
self_test spi_leds_and_enc bus = spi_leds_and_enc_self_test bus

abbrev pub registers : Core → ℕ
registers audio_single_pwm = audio_single_pwm_registers
registers axi_pwm_coprocessor = axi_pwm_coprocessor_registers
registers can_crossbar = can_crossbar_registers
registers display_16bit_cmd_data_bus = display_16bit_cmd_data_bus_registers
registers servo_led_ps2 = servo_led_ps2_registers
registers spi_leds_and_enc = spi_leds_and_enc_registers
